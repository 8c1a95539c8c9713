-- ===== src/Yalin/Flags.antt =====
-- Flag words as text (yalin/yalin/flags.h). A `char` array is the text before its first NUL,
-- beside the number of bytes of the array; a write behind the array is a `bad_access`.
pub mod Join
mod Tests
use Prim.Native.Nat.{bit_and}
use hspp.Prelude.{
  ℕ, zero, suc, ◌+◌, ◌*◌, ◌^◌, Bool, true, false, ltb, ◌==◌, if◌then◌else◌, List, [], ◌∷◌, ◌++◌,
  Text, codes, String, length, take, get_elem?,
}
use hspp.Outcome.{Outcome, ok, stop, Stop, bad_access, ◌>>=◌}
use hspp.Memory.{or_fault}
use hspp.Printf.{snprintf}

-- `struct flags_str`
pub record FlagsStr : Type 0 where
  pub name_long : Text
  pub name_short : Text

-- `strncat(str, src, n)` into an array of `size` bytes: at most `n` bytes of `src`, then a NUL.
unfoldable pub strncat : ℕ → Text → Text → ℕ → Outcome Text
strncat size str src n =
    let joined = str ++ take n src in
    if ltb (length joined) size then ok joined else stop bad_access

-- `MIN(a,b)`
abbrev pub min_macro : ℕ → ℕ → ℕ
min_macro a b = if ltb a b then a else b

-- `flags & 0x1<<i`
unfoldable pub flag_is_set : ℕ → ℕ → Bool
flag_is_set flags i = if bit_and flags (1 * 2 ^ i) == 0 then false else true

-- The loop, with `k` rounds left at the bit `i`; `name` is the field that it appends.
unfoldable pub flags_loop :
    (FlagsStr → Text) → ℕ → ℕ → List FlagsStr → ℕ → ℕ → Bool → Text → Outcome Text
unfolding strncat
flags_loop name len flags fstr zero i first str = ok str
flags_loop name len flags fstr (suc k) i first str = elim (flag_is_set flags i) [
  | true ↦ do
    str' ← if first then ok str else strncat len str (codes "|") len
    entry ← or_fault (get_elem? fstr i)
    str'' ← strncat len str' (name entry) len
    flags_loop name len flags fstr k (i + 1) false str''
  | false ↦ flags_loop name len flags fstr k (i + 1) first str
]

unfoldable pub snprintflags_long : ℕ → ℕ → List FlagsStr → ℕ → Outcome Text
snprintflags_long len flags fstr max_flag_bit =
    let n_loop = min_macro max_flag_bit (4 * 8) in
    flags_loop (λ e. e.name_long) len flags fstr n_loop 0 true []

unfoldable pub snprintflags_short : ℕ → ℕ → List FlagsStr → ℕ → Outcome Text
snprintflags_short len flags fstr max_flag_bit =
    let n_loop = min_macro max_flag_bit (4 * 8) in
    flags_loop (λ e. e.name_short) len flags fstr n_loop 0 true []

-- `{"<name>", "non"}`
abbrev entry : String → FlagsStr
entry name = record { name_long = codes name; name_short = codes "non" }

abbrev pub ifi_flags_table : List FlagsStr
ifi_flags_table =
    entry "IFA_F_TEMPORARY"
    ∷ entry "IFA_F_NODAD"
    ∷ entry "IFA_F_OPTIMISTIC"
    ∷ entry "IFA_F_DADFAILED"
    ∷ entry "IFA_F_HOMEADDRESS"
    ∷ entry "IFA_F_DEPRECATED"
    ∷ entry "IFA_F_TENTATIVE"
    ∷ entry "IFA_F_PERMANENT"
    ∷ entry "IFA_F_MANAGETEMPADDR"
    ∷ entry "IFA_F_NOPREFIXROUTE"
    ∷ entry "IFA_F_MCAUTOJOIN"
    ∷ entry "IFA_F_STABLE_PRIVACY"
    ∷ []

unfoldable pub ifi_flags_to_str : ℕ → ℕ → Outcome Text
ifi_flags_to_str flags len = snprintflags_long len flags ifi_flags_table (length ifi_flags_table)

abbrev pub f_new : List FlagsStr
f_new =
    entry "NLM_F_REQUEST"
    ∷ entry "NLM_F_MULTI"
    ∷ entry "NLM_F_ACK"
    ∷ entry "NLM_F_ECHO"
    ∷ entry "NLM_F_DUMP_INTR"
    ∷ entry "NLM_F_DUMP_FILTERED"
    ∷ entry "NLM_F_REPLACE"
    ∷ entry "NLM_F_EXCL"
    ∷ entry "NLM_F_CREATE"
    ∷ entry "NLM_F_APPEND"
    ∷ []

abbrev pub f_get : List FlagsStr
f_get =
    entry "NLM_F_REQUEST"
    ∷ entry "NLM_F_MULTI"
    ∷ entry "NLM_F_ACK"
    ∷ entry "NLM_F_ECHO"
    ∷ entry "NLM_F_DUMP_INTR"
    ∷ entry "NLM_F_DUMP_FILTERED"
    ∷ entry "NLM_F_ROOT"
    ∷ entry "NLM_F_MATCH"
    ∷ entry "NLM_F_ATOMIC"
    ∷ []

unfoldable pub nlmsg_flags_to_str_new : ℕ → ℕ → Outcome Text
nlmsg_flags_to_str_new flags len = do
  newstr ← snprintflags_long 100 flags f_new (length f_new)
  ok (snprintf len newstr)

unfoldable pub nlmsg_flags_to_str_get : ℕ → ℕ → Outcome Text
nlmsg_flags_to_str_get flags len = do
  getstr ← snprintflags_long 100 flags f_get (length f_get)
  ok (snprintf len getstr)
