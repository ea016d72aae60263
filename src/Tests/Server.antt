-- ===== src/Tests/Server.antt =====
-- Whom requests are attributed to, with addresses that are their text.
use open_console.Prelude.{
  ◌&&◌, ◌++◌, ◌==◌, Bool, List, Option, Text, [], codes, if◌then◌else◌, leb, none, refl, some,
  text_eq, true, ◌||◌, ◌∷◌, ◌≡◌,
}
use open_console.Server.ClientIp.{Net, client_ip, host_only, hops_of, parse_trusted_proxies, trusts}
use open_console.Server.ClientIp.Spoofed.{client_ip-spoofed}

abbrev is_numeric : Text → Bool
is_numeric [] = true
is_numeric (c ∷ cs) = ((leb b'0' c && leb c b'9') || c == b'.') && is_numeric cs

abbrev address_of : Text → Option Text
address_of [] = none
address_of (c ∷ cs) = if is_numeric (c ∷ cs) then some (c ∷ cs) else none

abbrev before_colon : Text → Option Text
before_colon [] = none
before_colon (c ∷ cs) =
    if c == b':' then some [] else elim (before_colon cs) [ none ↦ none | some h ↦ some (c ∷ h) ]

abbrev texts : Net
texts = record {
  Addr = Text;
  Prefix = Text;
  parse_addr = address_of;
  parse_prefix = λ s. none;
  prefix_of = λ a. a;
  contains = text_eq;
  to_text = λ a. a;
  split_host_port = before_colon;
}

abbrev proxies : List Text
proxies = codes "10.0.0.1" ∷ codes "10.0.0.2" ∷ []

proxies_read : parse_trusted_proxies texts (codes " 10.0.0.1,, 10.0.0.2 ") ≡ some proxies
unfolding parse_trusted_proxies
proxies_read = refl

proxies_refused : parse_trusted_proxies texts (codes "10.0.0.1, proxy") ≡ none
unfolding parse_trusted_proxies
proxies_refused = refl

abbrev header : List Text
header = codes "6.6.6.6, evil" ∷ codes "9.9.9.9, 10.0.0.2" ∷ []

abbrev socket : Text
socket = codes "10.0.0.1:4000"

header_hops :
    hops_of header
    ≡ (codes "6.6.6.6" ∷ codes "evil" ∷ []) ++ codes "9.9.9.9" ∷ codes "10.0.0.2" ∷ []
unfolding hops_of
header_hops = refl

not_trusted : client_ip texts proxies (codes "7.7.7.7:1") header ≡ codes "7.7.7.7"
unfolding client_ip
not_trusted = refl

client_ip-spoofed_example : client_ip texts proxies socket header ≡ codes "9.9.9.9"
client_ip-spoofed_example =
    client_ip-spoofed texts proxies socket (codes "9.9.9.9") header
      (codes "6.6.6.6" ∷ codes "evil" ∷ []) (codes "10.0.0.2" ∷ []) (codes "10.0.0.1")
      (codes "9.9.9.9") (unfold host_only in refl) (unfold trusts in refl) header_hops
      (unfold host_only in refl) (unfold trusts in refl)
      (
        record {
          address = codes "10.0.0.2";
          parsed = unfold host_only in refl;
          trusted = unfold trusts in refl;
        },
        tt,
      )
