-- ===== src/Examples/Records.antt =====
-- EDNS on concrete records.
use hydra_dns.Base.{
  ℕ, ◌+◌, ◌≤◌, ◌≡◌, refl, [], ◌∷◌, ◌++◌, List, Option, none, some, true, false, arith, length, All,
  Result, ok, Bytes,
}
use hydra_dns.Dns.Record.{Record, parse_record}
use hydra_dns.Dns.Edns.{
  EdnsOption, OptRecord, parse_edns_options, marshal_edns_options, marshal_opt, marshal_all_options,
  extract_opt, client_max_udp_size,
}
use hydra_dns.Dns.Edns.Opt.{extract_opt-marshal_opt}

-- A COOKIE and an option that is not in the list of allowed ones.
abbrev two_options : List EdnsOption
two_options =
    record { code = 10; content = 1 ∷ 2 ∷ [] } ∷ record { code = 3; content = 9 ∷ [] } ∷ []

abbrev opt : OptRecord
opt = record {
  udp_payload_size = 1232;
  extended_rcode = 0;
  version = 0;
  dnssec_ok = true;
  options = record { code = 10; content = 1 ∷ 2 ∷ [] } ∷ [];
}

opt_short : length (marshal_all_options opt.options) ≡ 6
unfolding marshal_all_options hydra_dns.Dns.Edns.marshal_option hydra_dns.Base.put_uint16
opt_short = refl

extract_opt-marshal_opt_example :
    (r : Record) × (parse_record (7 ∷ (marshal_opt opt ++ [])) 1
      ≡ ok (r, 1 + length (marshal_opt opt)))
    × (extract_opt (r ∷ []) ≡ ok (some opt))
extract_opt-marshal_opt_example =
    extract_opt-marshal_opt opt (7 ∷ []) [] [] (ground (arith, opt_short))
