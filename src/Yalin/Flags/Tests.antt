-- ===== src/Yalin/Flags/Tests.antt =====
-- Runs of the flag printers.
use hspp.Prelude.{◌≡◌, refl, codes, length, arith}
use hspp.Outcome.{ok, stop, bad_access}
use hspp.Printf.{snprintf}
use hspp.Yalin.Flags.Join.{snprintflags_long_lem}
use hspp.Yalin.Flags.{
  f_get, snprintflags_long, flags_loop, flag_is_set, ifi_flags_to_str, nlmsg_flags_to_str_get,
}

request_ack : nlmsg_flags_to_str_get 0x5 100 ≡ ok (codes "NLM_F_REQUEST|NLM_F_ACK")
unfolding nlmsg_flags_to_str_get snprintflags_long flags_loop flag_is_set snprintf
request_ack = refl

all_ifi_flags : ifi_flags_to_str 0xfff 100 ≡ stop bad_access
unfolding ifi_flags_to_str snprintflags_long flags_loop flag_is_set
all_ifi_flags = refl

snprintflags_long_lem_example :
    snprintflags_long 100 0x5 f_get (length f_get) ≡ ok (codes "NLM_F_REQUEST|NLM_F_ACK")
snprintflags_long_lem_example = snprintflags_long_lem 100 0x5 f_get (omega arith) (omega arith)
