-- ===== src/Security/Tests.antt =====
-- A run of the resolver of client addresses, and an instance of its theorem.
use authenik8_core_beta.Common.{◌≡◌, refl, ◌⊎◌, false, none, some, List, [], ◌∷◌, ◌++◌, any}
use authenik8_core_beta.Common.Text as Text
use authenik8_core_beta.Common.Text.{Text, text, eqb}
use authenik8_core_beta.Security.ClientIp as ClientIp
use authenik8_core_beta.Security.ClientIp.{
  IpLibrary, v4, ParsedIp, single, is_trusted, resolve_peer,
}
use authenik8_core_beta.Security.ClientIp.Laws.{resolve_peer-forged}

-- Addresses are texts, and a subnet has one.
abbrev test_library : IpLibrary Text
test_library = record {
  address4 = λ t. some t;
  address6 = λ t. none;
  is4 = λ a. false;
  to4 = λ a. none;
  correct_form = λ a. a;
  start_address = λ a. a;
  subnet_mask = λ a. text "32";
  is_in_subnet = λ a n. eqb a n;
}

abbrev address : Text → ParsedIp Text
address t = record { version = v4; canonical = t; address = t }

abbrev proxies : List (ParsedIp Text)
proxies = address (text "p") ∷ []

running : Unit {0}
unfolding Text.eqb Text.trim Text.trim_start Text.trim_end Text.is_space Text.includes_unit any
    ClientIp.same_version ClientIp.add_to_first ClientIp.split ClientIp.map_all ClientIp.parsed
    ClientIp.parse_ip6 ClientIp.parse_ip ClientIp.in_network ClientIp.is_trusted ClientIp.walk
    ClientIp.resolve_forwarded ClientIp.resolve_peer
running = tt

client_runs :
    resolve_peer test_library proxies (address (text "p")) (single (text "x, c, p"))
    ≡ some (address (text "c"))
unfolding running
client_runs = refl

behind_proxy :
    resolve_peer test_library proxies (address (text "p")) (single (text "c"))
    ≡ some (address (text "c"))
unfolding running
behind_proxy = refl

client_untrusted : is_trusted test_library proxies (address (text "c")) ≡ false
unfolding running
client_untrusted = refl

client-forged :
    (resolve_peer test_library proxies
        (address (text "p"))
        (single (text "evil" ++ b',' ∷ text "c"))
      ≡ none)
    ⊎ (resolve_peer test_library proxies
          (address (text "p"))
          (single (text "evil" ++ b',' ∷ text "c"))
        ≡ some (address (text "c")))
client-forged =
    resolve_peer-forged test_library proxies (address (text "p")) (address (text "c")) (text "evil")
      (text "c") behind_proxy client_untrusted
