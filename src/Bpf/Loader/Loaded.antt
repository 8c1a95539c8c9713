-- ===== src/Bpf/Loader/Loaded.antt =====
-- Which programs are loaded after the calls of a trace.
use hspp.Prelude.{
  ℕ, ◌+◌, ◌≡◌, refl, sym, ap, ◌∙◌, arith, Bool, false, ◌==◌, if◌then◌else◌, List, [], ◌∷◌, ◌++◌,
  Text, codes, Bool-cases, inl, inr,
}
use hspp.Outcome.{same_ok, Stop, ok, stop, assert_failed}
use hspp.Printf.{dec, hex}
use hspp.Calls.Replay.{without, replay, replay-append}
use hspp.Calls.Made.{made, made-added}
use hspp.Calls.{Program, Environment, Trace, run, ◌>>=◌, ◌>>◌, ask, tell, ret, halt, is_negative}
use hspp.Calls.Bind.{run->>=_ok}
use hspp.Bpf.Loader.{
  BpfCall, Stream, stdout, print, eal_init, elf_load, exec, pkt, bpf_prm, destroy, dump_lines,
  rte_bpf_dump, mbuf_bpf_elf_load, run_program, main,
}

abbrev pub after_call : List ℕ → BpfCall → ℕ → List ℕ
after_call loaded (elf_load prm fname section) p = if p == 0 then loaded else p ∷ loaded
after_call loaded (destroy p) n = without p loaded
after_call loaded _ n = loaded

abbrev pub loaded_after : List ℕ → Trace BpfCall → List ℕ
loaded_after = replay after_call

none_left : (p : ℕ) → without p (p ∷ []) ≡ []
none_left p = ground arith

failed : {P : Type 0} {why : Stop} {code : ℕ} → stop why ≡ ok code → P
failed e = cc

module _ (instructions : ℕ → List ℕ) (rte_bswap64 : ℕ → ℕ) (pointer : ℕ → Text)
    (env : Environment BpfCall) where
  loaded-dump_lines :
      (i : ℕ) (is : List ℕ) (past : Trace BpfCall)
      → loaded_after [] (run env past (dump_lines instructions rte_bswap64 pointer i is)).1
        ≡ loaded_after [] past
  unfolding dump_lines
  loaded-dump_lines i [] past = refl
  loaded-dump_lines i (ins ∷ is) past =
      loaded-dump_lines (i + 1) is _ ∙ replay-append after_call [] past _

  loaded-dump :
      (f : Stream) (bpf : ℕ) (past : Trace BpfCall)
      → loaded_after [] (run env past (rte_bpf_dump instructions rte_bswap64 pointer f bpf)).1
        ≡ loaded_after [] past
  unfolding rte_bpf_dump
  loaded-dump f bpf past =
      loaded-dump_lines 0 (instructions bpf) _ ∙ replay-append after_call [] past _

  loaded-run_program :
      (bpf : ℕ) (past : Trace BpfCall) {code : ℕ}
      → (bpf == 0) ≡ false
      → loaded_after [] past ≡ bpf ∷ []
      → (run env past (run_program instructions rte_bswap64 pointer bpf)).0 ≡ ok code
      → (code ≡ 0)
        × (loaded_after [] (run env past (run_program instructions rte_bswap64 pointer bpf)).1 ≡ [])
  unfolding run_program
  loaded-run_program bpf past {code} some has e =
      let (_, _, r) =
        run->>=_ok env then_destroy (rte_bpf_dump instructions rte_bswap64 pointer stdout bpf)
          printed (ap (λ x. x.0) (sym (after_test some)) ∙ e) in
      let all = after_test some ∙ r in
      (
        sym (same_ok (ap (λ x. x.0) (sym all) ∙ e)),
        ap (λ x. loaded_after [] x.1) all
            ∙ replay-append after_call [] dumped ((destroy bpf, env dumped (destroy bpf)) ∷ [])
            ∙ ap (without bpf) (
                loaded-dump stdout bpf printed
                ∙ ap (loaded_after []) (made-added env past prints)
                ∙ replay-append after_call [] past _
                ∙ has)
            ∙ none_left bpf,
      )
    where
      then_destroy : Unit {0} → Program BpfCall ℕ
      then_destroy _ = do tell (destroy bpf); ret 0

      text : Text
      text =
          let bpfret = env past (exec bpf pkt) in
          codes "bpfret:" ++ dec bpfret ++ codes " 0x" ++ hex bpfret ++ codes "\n"

      prints : List BpfCall
      prints = exec bpf pkt ∷ print stdout text ∷ []

      printed : Trace BpfCall
      printed = made env past prints

      dumped : Trace BpfCall
      dumped = (run env printed (rte_bpf_dump instructions rte_bswap64 pointer stdout bpf)).1

      running : Program BpfCall ℕ
      running = do
        bpfret ← ask (exec bpf pkt)
        tell (
            print stdout (codes "bpfret:" ++ dec bpfret ++ codes " 0x" ++ hex bpfret ++ codes "\n"))
        rte_bpf_dump instructions rte_bswap64 pointer stdout bpf
        tell (destroy bpf)
        ret 0

      missed : Program BpfCall ℕ
      missed = do tell (print stdout (codes "MISSED exit\n")); ret 1

      after_test :
          {b : Bool}
          → (bpf == 0) ≡ b
          → run env past (run_program instructions rte_bswap64 pointer bpf)
            ≡ run env past (if b then missed else running)
      after_test t = ap (λ (b : Bool). run env past (if b then missed else running)) t

  module _ (sizeof_mbuf default_buf_size : ℕ) where
    -- The answer to `rte_bpf_elf_load`.
    abbrev pub program : ℕ
    program =
        env ((eal_init, env [] eal_init) ∷ [])
          (elf_load (bpf_prm sizeof_mbuf default_buf_size) (codes "./code/t1.o") (codes ".text"))

    -- If `main` returns, its result is 0 if a program was loaded and 1 if not, and no program is loaded any more.
    pub loaded-main :
        (code : ℕ)
        → (run env [] (main instructions rte_bswap64 pointer sizeof_mbuf default_buf_size)).0
          ≡ ok code
        → (code ≡ (if program == 0 then 1 else 0))
          × (loaded_after []
                (run env [] (main instructions rte_bswap64 pointer sizeof_mbuf default_buf_size)).1
              ≡ [])
    unfolding main mbuf_bpf_elf_load run_program
    loaded-main code e = elim (Bool-cases (is_negative status)) [
      | inl negative ↦ failed (ap (λ x. x.0) (sym (after_status negative)) ∙ e)
      | inr started ↦ elim (Bool-cases (program == 0)) [
        | inl null ↦
            let r = after_status started ∙ after_load null in
            (
              sym (same_ok (ap (λ x. x.0) (sym r) ∙ e))
                  ∙ ap (λ (b : Bool). if b then 1 else 0) (sym null),
              ap (λ x. loaded_after [] x.1) r
                  ∙ ap (λ (b : Bool). if b then [] else program ∷ []) null,
            )
        | inr some ↦
            let r = after_status started ∙ after_load some in
            let (zero_code, none) =
              loaded-run_program program _ some
                (ap (λ (b : Bool). if b then [] else program ∷ []) some)
                (ap (λ x. x.0) (sym r) ∙ e) in
            (
              zero_code ∙ ap (λ (b : Bool). if b then 1 else 0) (sym some),
              ap (λ x. loaded_after [] x.1) r ∙ none,
            )
      ]
    ]
      where
        status : ℕ
        status = env [] eal_init

        loading : Program BpfCall ℕ
        loading = do
          bpf ← mbuf_bpf_elf_load sizeof_mbuf default_buf_size (codes "./code/t1.o")
          run_program instructions rte_bswap64 pointer bpf

        load : BpfCall
        load = elf_load (bpf_prm sizeof_mbuf default_buf_size) (codes "./code/t1.o") (codes ".text")

        after_status :
            {b : Bool}
            → is_negative status ≡ b
            → run env [] (main instructions rte_bswap64 pointer sizeof_mbuf default_buf_size)
              ≡ run env (made env [] (eal_init ∷ [])) (if b then halt assert_failed else loading)
        after_status t =
            ap
              (λ (b : Bool).
                run env (made env [] (eal_init ∷ [])) (if b then halt assert_failed else loading))
              t

        after_load :
            {b : Bool}
            → (program == 0) ≡ b
            → run env (made env [] (eal_init ∷ [])) loading
              ≡ run env (made env [] (eal_init ∷ load ∷ [])) (
                  (if b then ret 0 else ret program)
                  >>= run_program instructions rte_bswap64 pointer)
        after_load t =
            ap
              (λ (b : Bool). run env (made env [] (eal_init ∷ load ∷ [])) (
                (if b then ret 0 else ret program)
                >>= run_program instructions rte_bswap64 pointer))
              t
