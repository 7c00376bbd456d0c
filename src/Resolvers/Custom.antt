-- ===== src/Resolvers/Custom.antt =====
-- internal/resolvers/custom_dns_resolver.go: local A, AAAA and CNAME records. A Go map is a list of
-- keys with values; netip.ParseAddr is a parameter.
pub mod Answers
use hydra_dns.Base.{
  ℕ, [], ◌∷◌, List, Bool, true, false, not, ◌&&◌, ◌||◌, if◌then◌else◌, ◌==◌, bit_or, Option, none,
  some, ok, err, Bytes, bytes_eq,
}
use hydra_dns.Base.Table.{table_get, table_set}
use hydra_dns.Base.Text.{trim_space}
use hydra_dns.Dns.Enums.{type_a, type_aaaa, type_cname, qr_flag, aa_flag}
use hydra_dns.Dns.Name.{to_lower, trim_suffix_dot}
use hydra_dns.Dns.Question.{Question}
use hydra_dns.Dns.Record.{Record, ip_record, name_record}
use hydra_dns.Dns.Packet.{Packet, marshal_packet}
use hydra_dns.Resolvers.Answer.{
  Answer, answered, failed, no_question, not_configured, no_matching_records, cannot_marshal,
  custom_dns,
}

-- netip.Addr by its family, with its bytes; Is6 holds of every address in 16 bytes.
pub data Addr : Type 0 where
  v4 : Bytes → Addr
  v6 : Bytes → Addr

abbrev pub as_slice : Addr → Bytes
as_slice (v4 b) = b
as_slice (v6 b) = b

pub record CustomDnsResolver : Type 0 where
  pub hosts : List (Bytes × List Addr)
  pub cnames : List (Bytes × Bytes)

unfoldable pub normalize_host : Bytes → Bytes
normalize_host name = trim_suffix_dot (to_lower (trim_space name))

module _ (parse_addr : Bytes → Option Addr) where
  -- The addresses of one host; `none` for the error.
  unfoldable pub parse_addrs : List Bytes → Option (List Addr)
  parse_addrs [] = some []
  parse_addrs (ip ∷ ips) = elim (parse_addr (trim_space ip)) [
    | none ↦ none
    | some a ↦ elim (parse_addrs ips) [ none ↦ none | some rest ↦ some (a ∷ rest) ]
  ]

  -- The maps of the configuration, in the order in which they are visited.
  unfoldable pub add_hosts :
      List (Bytes × List Bytes) → List (Bytes × List Addr) → Option (List (Bytes × List Addr))
  unfolding parse_addrs
  add_hosts [] hosts = some hosts
  add_hosts ((name, ips) ∷ rest) hosts = elim (parse_addrs ips) [
    | none ↦ none
    | some addrs ↦ add_hosts rest (elim addrs as (λ _. List (Bytes × List Addr)) [
      | [] ↦ hosts
      | a ∷ as' ↦ table_set (normalize_host name) (a ∷ as') hosts
    ])
  ]

unfoldable pub add_cnames : List (Bytes × Bytes) → List (Bytes × Bytes) → List (Bytes × Bytes)
add_cnames [] cnames = cnames
add_cnames ((alias, target) ∷ rest) cnames =
    add_cnames rest (table_set (normalize_host alias) (normalize_host target) cnames)

unfoldable pub new_custom_dns_resolver :
    (Bytes → Option Addr)
    → List (Bytes × List Bytes)
    → List (Bytes × Bytes)
    → Option CustomDnsResolver
new_custom_dns_resolver parse_addr hosts cnames = elim (add_hosts parse_addr hosts []) [
  | none ↦ none
  | some table ↦ some (record { hosts = table; cnames = add_cnames cnames [] })
]

unfoldable pub matches_query_type : Addr → ℕ → Bool
matches_query_type (v4 b) qtype = qtype == type_a
matches_query_type (v6 b) qtype = not (qtype == type_a) && qtype == type_aaaa

abbrev pub build_custom_dns_flags : ℕ → ℕ
build_custom_dns_flags req_flags = bit_or qr_flag aa_flag

-- The loops over the addresses of a host.
unfoldable pub matching_records : Bytes → ℕ → ℕ → List Addr → List Record
matching_records name class qtype [] = []
matching_records name class qtype (addr ∷ addrs) =
    let rest = matching_records name class qtype addrs in
    if matches_query_type addr qtype
    then ip_record (record { name = name; class = class; ttl = 3600 }) (as_slice addr) ∷ rest
    else rest

-- The packet that answers a question, with records in two sections.
unfoldable pub custom_packet : Packet → Question → List Record → List Record → Packet
custom_packet req q answers additionals = record {
  header = record {
    id = req.header.id;
    flags = build_custom_dns_flags req.header.flags;
    qd_count = 0;
    an_count = 0;
    ns_count = 0;
    ar_count = 0;
  };
  questions = q ∷ [];
  answers = answers;
  authorities = [];
  additionals = additionals;
}

unfoldable pub send : Packet → Answer
send resp = elim (marshal_packet resp) [
  | ok b ↦ answered b custom_dns
  | err e ↦ failed cannot_marshal
]

unfoldable pub cname_additionals : CustomDnsResolver → Question → Bytes → List Record
cname_additionals r q target =
    if q.type == type_a || q.type == type_aaaa
    then elim (table_get (normalize_host target) r.hosts) [
      | none ↦ []
      | some addrs ↦ matching_records target q.class q.type addrs
    ]
    else []

unfoldable pub build_cname_response : CustomDnsResolver → Packet → Question → Bytes → Answer
unfolding send
build_cname_response r req q target =
    let cname =
      name_record (record { name = q.name; class = q.class; ttl = 3600 }) type_cname target in
    send (custom_packet req q (cname ∷ []) (cname_additionals r q target))

unfoldable pub build_address_response : Packet → Question → List Addr → Answer
unfolding send
build_address_response req q addrs = elim (matching_records q.name q.class q.type addrs) [
  | [] ↦ failed no_matching_records
  | a ∷ answers ↦ send (custom_packet req q (a ∷ answers) [])
]

unfoldable pub custom_resolve : CustomDnsResolver → Packet → Answer
custom_resolve r req = elim req.questions [
  | [] ↦ failed no_question
  | q ∷ qs ↦ elim (table_get (normalize_host q.name) r.cnames) [
    | some target ↦ build_cname_response r req q target
    | none ↦ elim (table_get (normalize_host q.name) r.hosts) [
      | some addrs ↦ build_address_response req q addrs
      | none ↦ failed not_configured
    ]
  ]
]

unfoldable pub has_key : {A : Type 0} → Bytes → List (Bytes × A) → Bool
has_key k t = elim (table_get k t) [ none ↦ false | some a ↦ true ]

unfoldable pub contains_domain : CustomDnsResolver → Bytes → Bool
contains_domain r name =
    has_key (normalize_host name) r.hosts || has_key (normalize_host name) r.cnames

unfoldable pub is_empty_config : CustomDnsResolver → Bool
is_empty_config r =
    (elim r.hosts [ [] ↦ true | h ∷ hs ↦ false ]) && (elim r.cnames [ [] ↦ true | c ∷ cs ↦ false ])
