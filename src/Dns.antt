-- ===== src/Dns.antt =====
-- clients/core-ts/src/dns.ts: the resolver options, the reading of a stored choice, and the value of
-- `DNS =` in a tunnel configuration. A stored value that is no text is `none`.
mod Examples
use text.Mathlib.Text.{◌==◌ as str_eq}
use Prim.Native.String
use cumulusvpn.Common.{
  String, Bool, true, false, Option, none, some, List, [], ◌∷◌, if◌then◌else◌, find,
}

pub data DnsChoice : Type 0 where
  cloudflare google quad9 dns4eu adguard family : DnsChoice

-- What an option's `id` is as a text.
unfoldable pub id_of : DnsChoice → String
id_of cloudflare = "cloudflare"
id_of google = "google"
id_of quad9 = "quad9"
id_of dns4eu = "dns4eu"
id_of adguard = "adguard"
id_of family = "family"

pub record DnsOption : Type 0 where
  pub id : DnsChoice
  pub provider : String
  pub blurb : String
  pub servers : List String

abbrev option : DnsChoice → String → String → String → String → DnsOption
option id provider blurb first second = record {
  id = id;
  provider = provider;
  blurb = blurb;
  servers = first ∷ second ∷ [];
}

abbrev pub default_dns : DnsChoice
default_dns = cloudflare

abbrev pub default_option : DnsOption
default_option = option cloudflare "Cloudflare" "Fast, no filtering" "1.1.1.1" "1.0.0.1"

abbrev pub dns_options : List DnsOption
dns_options =
    default_option
    ∷ option google "Google Public DNS" "No filtering" "8.8.8.8" "8.8.4.4"
    ∷ option quad9 "Quad9" "Blocks known malicious sites" "9.9.9.9" "149.112.112.112"
    ∷ option dns4eu "DNS4EU" "EU-based, blocks malware and phishing" "86.54.11.1" "86.54.11.201"
    ∷ option adguard "AdGuard DNS" "Blocks ads and trackers" "94.140.14.14" "94.140.15.15"
    ∷ option family "Cloudflare for Families" "Blocks malware and adult content" "1.1.1.3" "1.0.0.3"
    ∷ []

abbrev or_default : Option DnsOption → DnsOption
or_default none = default_option
or_default (some o) = o

unfoldable pub dns_option : DnsChoice → DnsOption
dns_option choice = or_default (find (λ o. str_eq (id_of o.id) (id_of choice)) dns_options)

abbrev chosen : String → Option DnsOption → DnsChoice
chosen value (some o) = o.id
chosen value none = if str_eq value "mullvad" then quad9 else default_dns

unfoldable pub parse_dns_choice : Option String → DnsChoice
parse_dns_choice none = default_dns
parse_dns_choice (some value) = chosen value (find (λ o. str_eq (id_of o.id) value) dns_options)

abbrev join_servers : List String → String
join_servers [] = ""
join_servers (s ∷ []) = s
join_servers (s ∷ (t ∷ ts)) = String.◌++◌ s (String.◌++◌ ", " (join_servers (t ∷ ts)))

unfoldable pub dns_servers_for : DnsChoice → String → String
unfolding dns_option
dns_servers_for choice gateway_dns =
    if str_eq (id_of choice) (id_of default_dns)
    then gateway_dns
    else join_servers (dns_option choice).servers
