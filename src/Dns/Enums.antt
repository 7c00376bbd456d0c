-- ===== src/Dns/Enums.antt =====
-- internal/dns/enums.go: flags, masks, record types, classes and response codes.
use hydra_dns.Base.{ℕ, bit_and}

abbrev pub qr_flag : ℕ
qr_flag = 0x8000

abbrev pub opcode_mask : ℕ
opcode_mask = 0x7800

abbrev pub aa_flag : ℕ
aa_flag = 0x0400

abbrev pub tc_flag : ℕ
tc_flag = 0x0200

abbrev pub rd_flag : ℕ
rd_flag = 0x0100

abbrev pub ra_flag : ℕ
ra_flag = 0x0080

abbrev pub ad_flag : ℕ
ad_flag = 0x0020

abbrev pub cd_flag : ℕ
cd_flag = 0x0010

abbrev pub rcode_mask : ℕ
rcode_mask = 0x000F

abbrev pub type_a : ℕ
type_a = 1

abbrev pub type_ns : ℕ
type_ns = 2

abbrev pub type_cname : ℕ
type_cname = 5

abbrev pub type_soa : ℕ
type_soa = 6

abbrev pub type_ptr : ℕ
type_ptr = 12

abbrev pub type_aaaa : ℕ
type_aaaa = 28

abbrev pub type_opt : ℕ
type_opt = 41

abbrev pub class_in : ℕ
class_in = 1

abbrev pub rcode_no_error : ℕ
rcode_no_error = 0

abbrev pub rcode_form_err : ℕ
rcode_form_err = 1

abbrev pub rcode_serv_fail : ℕ
rcode_serv_fail = 2

abbrev pub rcode_nx_domain : ℕ
rcode_nx_domain = 3

unfoldable pub rcode_from_flags : ℕ → ℕ
rcode_from_flags flags = bit_and flags rcode_mask
