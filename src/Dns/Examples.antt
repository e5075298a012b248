-- ===== src/Dns/Examples.antt =====
-- Choices of clients/core-ts/src/dns.ts as they are stored and as they are written.
use cumulusvpn.Common.{◌≡◌, refl, none, some}
use cumulusvpn.Dns.{
  DnsChoice, cloudflare, google, quad9, dns4eu, adguard, family, id_of, dns_option,
  parse_dns_choice, dns_servers_for,
}

-- Every choice is read back from its own text.
stored : (c : DnsChoice) → parse_dns_choice (some (id_of c)) ≡ c
unfolding parse_dns_choice id_of
stored cloudflare = refl
stored google = refl
stored quad9 = refl
stored dns4eu = refl
stored adguard = refl
stored family = refl

retired : (parse_dns_choice (some "mullvad") ≡ quad9) × (parse_dns_choice none ≡ cloudflare)
unfolding parse_dns_choice id_of
retired = (refl, refl)

servers :
    (dns_servers_for quad9 "1.1.1.1" ≡ "9.9.9.9, 149.112.112.112")
    × (dns_servers_for cloudflare "10.0.0.1" ≡ "10.0.0.1")
unfolding dns_servers_for dns_option id_of
servers = (refl, refl)
