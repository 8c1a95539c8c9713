-- ===== src/Bpf/Loader/Tests.antt =====
-- A program of two instructions.
use hspp.Prelude.{
  ℕ, zero, suc, ◌/◌, ◌%◌, ◌^◌, ◌≡◌, refl, arith, ap, ap₂, ◌∙◌, ◌==◌, if◌then◌else◌, List, [], ◌∷◌,
  map, Text, codes, length, sym,
}
use hspp.Outcome.{ok}
use hspp.Memory.Bounds.{IsBytes}
use hspp.Printf.{digits, hex, hex0}
use hspp.Calls.{Environment, run}
use hspp.Calls.Made.{made}
use hspp.Bpf.Loader.{
  BpfCall, stdout, print, elf_load, exec, dump_lines, rte_bpf_dump, mbuf_bpf_elf_load, run_program,
  main,
}
use hspp.Bpf.Loader.Dump.{little_endian, big_endian, IsWord, AllWords, byte_lines, run-rte_bpf_dump}
use hspp.Bpf.Loader.Loaded.{loaded_after, loaded-main, program}

-- A byte swap of words: their lowest eight bytes, the other way round.
abbrev lowest : ℕ → ℕ → List ℕ
lowest zero w = []
lowest (suc k) w = w % 2 ^ 8 ∷ lowest k (w / 2 ^ 8)

abbrev swap64 : ℕ → ℕ
swap64 w = big_endian 0 (lowest 8 w)

lowest-little_endian : (bs : List ℕ) → IsBytes bs → lowest (length bs) (little_endian bs) ≡ bs
lowest-little_endian [] h = refl
lowest-little_endian (b ∷ bs) (lt, h) =
    ap₂ (λ c w. c ∷ lowest (length bs) w) (omega arith) (omega arith)
    ∙ ap (λ cs. b ∷ cs) (lowest-little_endian bs h)

swap64_swaps : (bs : List ℕ) → IsWord bs → swap64 (little_endian bs) ≡ big_endian 0 bs
swap64_swaps bs (eight, h) =
    ap (λ n. big_endian 0 (lowest n (little_endian bs))) (sym eight)
    ∙ ap (big_endian 0) (lowest-little_endian bs h)

abbrev words : List (List ℕ)
words = (0xb7 ∷ 0 ∷ 0 ∷ 0 ∷ 1 ∷ 0 ∷ 0 ∷ 0 ∷ []) ∷ (0x95 ∷ 0 ∷ 0 ∷ 0 ∷ 0 ∷ 0 ∷ 0 ∷ 0 ∷ []) ∷ []

abbrev programs : ℕ → List ℕ
programs bpf = map little_endian words

abbrev no_text : ℕ → Text
no_text p = codes "0x1000"

abbrev grants : Environment BpfCall
grants past (elf_load prm fname section) = 4096
grants past (exec bpf packet) = 1
grants past _ = 0

second_line :
    byte_lines 1 ((0x95 ∷ 0 ∷ 0 ∷ 0 ∷ 0 ∷ 0 ∷ 0 ∷ 0 ∷ []) ∷ [])
    ≡ print stdout (codes "  0x0008: 9500000000000000\n") ∷ []
unfolding hex0 hex digits
second_line = refl

all_words : AllWords words
all_words = ground arith

run-rte_bpf_dump_example : run grants [] (rte_bpf_dump programs swap64 no_text stdout 4096) ≡ (
  ok tt,
  made grants [] (print stdout (codes "bpf </pmd/md/t.o>@0x1000\n") ∷ byte_lines 0 words),
)
run-rte_bpf_dump_example =
    run-rte_bpf_dump programs swap64 no_text swap64_swaps grants stdout 4096 words [] all_words refl

main_returns : (run grants [] (main programs swap64 no_text 128 2176)).0 ≡ ok 0
unfolding main mbuf_bpf_elf_load run_program rte_bpf_dump dump_lines
main_returns = refl

abbrev success : ℕ
success = 0

loaded-main_example :
    (success ≡ (if program programs swap64 no_text grants 128 2176 == 0 then 1 else 0))
    × (loaded_after [] (run grants [] (main programs swap64 no_text 128 2176)).1 ≡ [])
loaded-main_example = loaded-main programs swap64 no_text grants 128 2176 0 main_returns
