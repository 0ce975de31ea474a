-- ===== src/Security/ClientIp.antt =====
-- src/security/requestContext.ts: the address and the device of a client. The library ip-address is
-- a parameter.
pub mod Laws
use authenik8_core_beta.Common.{
  ℕ, Bool, true, false, not, ◌&&◌, ◌||◌, Option, none, some, List, [], ◌∷◌, ◌++◌, if◌then◌else◌,
  ltb, ◌==◌, length, any, reverse, take,
}
use authenik8_core_beta.Common.Text.{Text, text, trim, includes_unit}
use authenik8_core_beta.Common.Effects.{Result, ok, err, plain}
use authenik8_core_beta.Common.Effects.Pure.{traverse}

-- What the code calls of ip-address; a constructor that throws gives `none`.
pub record IpLibrary (Address : Type 0) : Type 0 where
  pub address4 : Text → Option Address
  pub address6 : Text → Option Address
  pub is4 : Address → Bool
  pub to4 : Address → Option Address
  pub correct_form : Address → Text
  pub start_address : Address → Address
  pub subnet_mask : Address → Text
  pub is_in_subnet : Address → Address → Bool

pub data IpVersion : Type 0 where
  v4 v6 : IpVersion

-- `ParsedIp` and `ParsedNetwork`.
pub record ParsedIp (Address : Type 0) : Type 0 where
  pub version : IpVersion
  pub canonical : Text
  pub address : Address

-- The header `x-forwarded-for`: it is missing, one text, or several.
pub data ForwardedHeader : Type 0 where
  missing several : ForwardedHeader
  single : Text → ForwardedHeader

unfoldable pub same_version : IpVersion → IpVersion → Bool
same_version v4 v4 = true
same_version v6 v6 = true
same_version _ _ = false

-- String.prototype.split by one character.
unfoldable pub add_to_first : ℕ → List Text → List Text
add_to_first c [] = (c ∷ []) ∷ []
add_to_first c (part ∷ parts) = (c ∷ part) ∷ parts

unfoldable pub split : ℕ → Text → List Text
split separator [] = [] ∷ []
split separator (c ∷ s) =
    let parts = split separator s in if c == separator then [] ∷ parts else add_to_first c parts

-- `parts.map(f)` where some result may be missing: all of them, or none.
unfoldable pub map_all : {A B : Type 0} → (A → Option B) → List A → Option (List B)
map_all f [] = some []
map_all f (a ∷ rest) =
    let others = map_all f rest in
    elim (f a) [ none ↦ none | some b ↦ elim others [ none ↦ none | some bs ↦ some (b ∷ bs) ] ]

abbrev pub max_forwarded_header_length : ℕ
max_forwarded_header_length = 4096

abbrev pub max_proxy_hops : ℕ
max_proxy_hops = 32

abbrev pub max_observed_device_length : ℕ
max_observed_device_length = 512

-- The device of a session observation, from the header `user-agent`.
unfoldable pub observed_device : Option Text → Text
observed_device none = text "unknown"
observed_device (some user_agent) = take max_observed_device_length user_agent

module _ {Address : Type 0} (library : IpLibrary Address) where
  unfoldable pub parsed : IpVersion → Address → ParsedIp Address
  parsed version address = record {
    version = version;
    canonical = library.correct_form address;
    address = address;
  }

  unfoldable pub parse_ip6 : Text → Option (ParsedIp Address)
  parse_ip6 value = elim (library.address6 value) [
    | none ↦ none
    | some address ↦
        if library.is4 address
        then elim (library.to4 address) [ none ↦ none | some ipv4 ↦ some (parsed v4 ipv4) ]
        else some (parsed v6 address)
  ]

  unfoldable pub parse_ip : Text → Option (ParsedIp Address)
  parse_ip input =
      let value = trim input in
      if length input == 0
        || ltb 128 (length input)
        || length value == 0
        || includes_unit b'/' value
        || includes_unit b'%' value
      then none
      else if includes_unit b':' value
      then parse_ip6 value
      else elim (library.address4 value) [ none ↦ none | some address ↦ some (parsed v4 address) ]

  -- A network with its canonical text.
  unfoldable pub parsed_network : IpVersion → Option Address → Option (ParsedIp Address)
  parsed_network version none = none
  parsed_network version (some network) = some (record {
    version = version;
    canonical = library.correct_form network ++ text "/" ++ library.subnet_mask network;
    address = network;
  })

  -- The text from which the network of an address is made.
  unfoldable pub network_text : Address → Text
  network_text address =
      library.correct_form (library.start_address address)
      ++ text "/"
      ++ library.subnet_mask address

  unfoldable pub parse_network : Text → Option (ParsedIp Address)
  parse_network input =
      let value = trim input in
      if length input == 0
        || ltb 160 (length input)
        || not (includes_unit b'/' value)
        || includes_unit b'%' value
      then none
      else if includes_unit b':' value
      then elim (library.address6 value) [
        | none ↦ none
        | some address ↦
            if library.is4 address
            then none
            else parsed_network v6 (library.address6 (network_text address))
      ]
      else elim (library.address4 value) [
        | none ↦ none
        | some address ↦ parsed_network v4 (library.address4 (network_text address))
      ]

  unfoldable pub normalize_ip : Text → Option Text
  normalize_ip input = elim (parse_ip input) [ none ↦ none | some ip ↦ some ip.canonical ]

  unfoldable pub normalize_ip_or_cidr : Text → Option Text
  normalize_ip_or_cidr input = elim (parse_network input) [
    | none ↦ normalize_ip input
    | some network ↦ some network.canonical
  ]

  unfoldable pub in_network : ParsedIp Address → ParsedIp Address → Bool
  in_network ip network =
      same_version network.version ip.version && library.is_in_subnet ip.address network.address

  unfoldable pub is_ip_in_cidr : Text → Text → Bool
  is_ip_in_cidr ip cidr = elim (parse_ip ip) [
    | none ↦ false
    | some parsed_ip ↦ elim (parse_network cidr) [
      | none ↦ false
      | some network ↦ in_network parsed_ip network
    ]
  ]

  -- The message of the error also has the entry.
  unfoldable pub compile_trusted_networks : List Text → Result (List (ParsedIp Address))
  compile_trusted_networks cidrs =
      traverse
        (λ entry. elim (parse_network entry) [
          | none ↦ err (plain "Invalid trusted proxy CIDR")
          | some network ↦ ok network
        ])
        cidrs

  module _ (networks : List (ParsedIp Address)) where
    unfoldable pub is_trusted : ParsedIp Address → Bool
    is_trusted ip = any (in_network ip) networks

    -- The loop over the hops, from the nearest to the farthest.
    unfoldable pub walk : ParsedIp Address → List (ParsedIp Address) → ParsedIp Address
    walk candidate [] = candidate
    walk candidate (hop ∷ hops) =
        let next = walk hop hops in if is_trusted candidate then next else candidate

    unfoldable pub resolve_forwarded : ParsedIp Address → Text → Option (ParsedIp Address)
    resolve_forwarded direct_peer header =
        if ltb max_forwarded_header_length (length header)
          || ltb max_proxy_hops (length (split b',' header))
        then none
        else elim (map_all parse_ip (split b',' header)) [
          | none ↦ none
          | some hops ↦ some (walk direct_peer (reverse hops))
        ]

    -- The body of the resolver after the direct peer is known; `none` is "unknown".
    unfoldable pub resolve_peer : ParsedIp Address → ForwardedHeader → Option (ParsedIp Address)
    resolve_peer direct_peer missing = some direct_peer
    resolve_peer direct_peer several =
        if length networks == 0 || not (is_trusted direct_peer) then some direct_peer else none
    resolve_peer direct_peer (single header) =
        if length networks == 0 || not (is_trusted direct_peer)
        then some direct_peer
        else resolve_forwarded direct_peer header

    unfoldable pub resolve_client : Option Text → ForwardedHeader → Option (ParsedIp Address)
    resolve_client none header = none
    resolve_client (some remote) header = elim (parse_ip remote) [
      | none ↦ none
      | some direct_peer ↦ resolve_peer direct_peer header
    ]

    -- The resolver that `createClientIpResolver` makes.
    unfoldable pub client_ip : Option Text → ForwardedHeader → Text
    client_ip remote header = elim (resolve_client remote header) [
      | none ↦ text "unknown"
      | some ip ↦ ip.canonical
    ]
