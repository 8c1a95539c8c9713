-- ===== src/Bpf/Loader.antt =====
-- The loader of the packet programs (bpf/bpf.h and bpf/main.c), over an environment that answers the
-- calls of DPDK. A pointer is a number, and NULL is 0. `instructions` stands for the array `prm.ins` of
-- `prm.nb_ins` words of a loaded program, `rte_bswap64` for the function of DPDK, `pointer` for the
-- text of `%p`; `sizeof_mbuf` and `default_buf_size` for constants of DPDK.
pub mod Dump
pub mod Loaded
mod Tests
use hspp.Prelude.{ℕ, ◌+◌, ◌*◌, ◌%◌, ◌^◌, ◌==◌, if◌then◌else◌, List, [], ◌∷◌, ◌++◌, Text, codes}
use hspp.Outcome.{assert_failed}
use hspp.Printf.{dec, hex, hex0}
use hspp.Calls.{Program, ret, halt, ◌>>=◌, ◌>>◌, ask, tell, is_negative}

-- What the loader tells of an argument: `RTE_BPF_ARG_RAW`, `RTE_BPF_ARG_PTR`, `RTE_BPF_ARG_PTR_MBUF`.
pub data ArgType : Type 0 where
  raw ptr ptr_mbuf : ArgType

pub record BpfArg : Type 0 where
  pub type : ArgType
  pub size : ℕ

-- `struct rte_bpf_xsym`: a variable, or a function with its arguments.
pub data BpfXsym : Type 0 where
  xtype_var : Text → BpfArg → BpfXsym
  xtype_func : Text → List BpfArg → BpfXsym

-- The fields of `struct rte_bpf_prm` that are set.
pub record BpfPrm : Type 0 where
  pub xsym : List BpfXsym
  pub prog_arg : BpfArg
  pub buf_size : ℕ

pub data Stream : Type 0 where
  stdout stderr : Stream

-- The calls; `print` is `fprintf`, with the text that it writes.
pub data BpfCall : Type 0 where
  eal_init : BpfCall
  elf_load : BpfPrm → Text → Text → BpfCall
  exec : ℕ → List ℕ → BpfCall
  destroy : ℕ → BpfCall
  print : Stream → Text → BpfCall

-- The array `pkt`.
abbrev pub pkt : List ℕ
pkt =
    0xff ∷ 0xff ∷ 0xff ∷ 0xff ∷ 0xff ∷ 0xff ∷ 0x11 ∷ 0x22 ∷ 0x33 ∷ 0x44 ∷ 0x55 ∷ 0x66 ∷ 0x08 ∷ 0x06
    ∷ 0x00 ∷ 0x01 ∷ 0x08 ∷ 0x00 ∷ 0x06 ∷ 0x04 ∷ 0x00 ∷ 0x01 ∷ 0x00 ∷ 0x00 ∷ 0x00 ∷ 0x00 ∷ 0x00
    ∷ 0x00 ∷ 0x00 ∷ 0x00 ∷ 0x00 ∷ 0x00 ∷ 0xff ∷ 0xff ∷ 0xff ∷ 0xff ∷ 0xff ∷ 0xff ∷ 0x00 ∷ 0x00
    ∷ 0x00 ∷ 0x00 ∷ []

-- The table `bpf_xsym`, and what `mbuf_bpf_elf_load` sets.
module _ (sizeof_mbuf default_buf_size : ℕ) where
  abbrev pub bpf_xsym : List BpfXsym
  bpf_xsym =
      xtype_var (codes "stdout") (record { type = ptr; size = 8 })
      ∷ xtype_func (codes "rte_pktmbuf_dump") (
          record { type = raw; size = 8 }
          ∷ record { type = ptr_mbuf; size = sizeof_mbuf }
          ∷ record { type = raw; size = 4 }
          ∷ [])
      ∷ []

  abbrev pub bpf_prm : BpfPrm
  bpf_prm = record {
    xsym = bpf_xsym;
    prog_arg = record { type = ptr_mbuf; size = sizeof_mbuf };
    buf_size = default_buf_size;
  }

  -- The text that a failure writes to stderr has the line and the name of the file; it is left out.
  unfoldable pub mbuf_bpf_elf_load : Text → Program BpfCall ℕ
  mbuf_bpf_elf_load fname = do
    bpf ← ask (elf_load bpf_prm fname (codes ".text"))
    if bpf == 0 then ret 0 else ret bpf

module _ (instructions : ℕ → List ℕ) (rte_bswap64 : ℕ → ℕ) (pointer : ℕ → Text) where
  -- The loop over the instructions, with those that are left and the number of the next.
  unfoldable pub dump_lines : ℕ → List ℕ → Program BpfCall (Unit {0})
  dump_lines i [] = ret tt
  dump_lines i (ins ∷ rest) = do
    tell (
        print stdout (
          codes "  0x"
          ++ hex0 4 (i * 8 % 2 ^ 64)
          ++ codes ": "
          ++ hex0 16 (rte_bswap64 ins)
          ++ codes "\n"))
    dump_lines (i + 1) rest

  unfoldable pub rte_bpf_dump : Stream → ℕ → Program BpfCall (Unit {0})
  unfolding dump_lines
  rte_bpf_dump f bpf = do
    tell (print f (codes "bpf </pmd/md/t.o>@" ++ pointer bpf ++ codes "\n"))
    dump_lines 0 (instructions bpf)

  -- `main` from the test of `bpf` on.
  unfoldable pub run_program : ℕ → Program BpfCall ℕ
  unfolding rte_bpf_dump
  run_program bpf =
      if bpf == 0 then (do tell (print stdout (codes "MISSED exit\n")); ret 1) else (do
        bpfret ← ask (exec bpf pkt)
        tell (
            print stdout (codes "bpfret:" ++ dec bpfret ++ codes " 0x" ++ hex bpfret ++ codes "\n"))
        rte_bpf_dump stdout bpf
        tell (destroy bpf)
        ret 0)

  -- `sizeof_mbuf` and `default_buf_size` are those of `bpf_prm`.
  unfoldable pub main : ℕ → ℕ → Program BpfCall ℕ
  unfolding mbuf_bpf_elf_load run_program
  main sizeof_mbuf default_buf_size = do
    status ← ask eal_init
    if is_negative status then halt assert_failed else (do
      bpf ← mbuf_bpf_elf_load sizeof_mbuf default_buf_size (codes "./code/t1.o")
      run_program bpf)
