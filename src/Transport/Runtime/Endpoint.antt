-- ===== src/Transport/Runtime/Endpoint.antt =====
-- `Endpoint::parse`, `Server::from_env` and `conectar_cliente` of transport/src/runtime.rs: where a
-- service listens and which codec it speaks. `Addr` is `SocketAddr` and `addr_of` its `parse`;
-- `var` is `std::env::var`.
use smart_core_assistant_v.Prelude.{
  ℕ, ◌≡◌, refl, ◌-◌, ◌&&◌, Option, none, some, [], ◌∷◌, ◌++◌, map, Text, txt, same, leb,
  if◌then◌else◌,
}
use smart_core_assistant_v.Transport.Codec.Interface.{escolher}

pub data Endpoint (Addr : Type 0) : Type 0 where
  uds : Text → Endpoint Addr
  tcp : Addr → Endpoint Addr

-- `s.strip_prefix(k)`
abbrev pub strip_prefix : Text → Text → Option Text
strip_prefix [] s = some s
strip_prefix (c ∷ k) [] = none
strip_prefix (c ∷ k) (d ∷ s) = if same c d then strip_prefix k s else none

-- `to_uppercase()` of a service's name, which is ASCII.
abbrev pub upper_char : ℕ → ℕ
upper_char c = if leb b'a' c && leb c b'z' then c - 32 else c

abbrev pub to_uppercase : Text → Text
to_uppercase = map upper_char

abbrev pub or_else : Option Text → Text → Text
or_else none d = d
or_else (some s) d = s

module _ {Addr : Type 0} (addr_of : Text → Option Addr) where
  abbrev pub parse_tcp : Option Text → Option (Endpoint Addr)
  parse_tcp none = none
  parse_tcp (some addr_str) = elim (addr_of addr_str) [
    | none ↦ none
    | some addr ↦ some (Endpoint.tcp addr)
  ]

  abbrev pub parse_uds : Option Text → Text → Option (Endpoint Addr)
  parse_uds (some path) s = some (Endpoint.uds path)
  parse_uds none s = parse_tcp (strip_prefix (txt "tcp://") s)

  -- `none` is an error.
  unfoldable pub parse : Text → Option (Endpoint Addr)
  parse s = parse_uds (strip_prefix (txt "unix://") s) s

  unfoldable pub print : (Addr → Text) → Endpoint Addr → Text
  print show (Endpoint.uds path) = txt "unix://" ++ path
  print show (Endpoint.tcp addr) = txt "tcp://" ++ show addr

  module _ (var : Text → Option Text) where
    abbrev pub endpoint_str : Text → Text
    endpoint_str svc_name =
        or_else (var (txt "SMARTCORE_" ++ (to_uppercase svc_name ++ txt "_ENDPOINT")))
          (txt "unix:///var/run/smartcore/" ++ (svc_name ++ txt ".sock"))

    abbrev pub codec_name : Text → Text
    codec_name svc_name =
        or_else (var (txt "SMARTCORE_" ++ (to_uppercase svc_name ++ txt "_CODEC")))
          (txt "flatbuffers")

    -- Where the parse fails the server takes a local path.
    abbrev pub or_local : Text → Option (Endpoint Addr) → Endpoint Addr
    or_local svc_name (some e) = e
    or_local svc_name none = Endpoint.uds (txt "c:/temp/smartcore_" ++ (svc_name ++ txt ".sock"))

    -- `Server::from_env`, and the codec that `handle_connection` takes for the name.
    unfoldable pub server_from_env {ℓ} : {C : Type ℓ} → C → C → Text → Endpoint Addr × C
    unfolding parse escolher
    server_from_env flatbuffers grpc svc_name = (
      or_local svc_name (parse (endpoint_str svc_name)),
      escolher flatbuffers grpc (some (codec_name svc_name)),
    )

    -- `conectar_cliente`, up to the connection itself; `none` is an error.
    unfoldable pub conectar_cliente {ℓ} : {C : Type ℓ} → C → C → Text → Option (Endpoint Addr × C)
    unfolding parse escolher
    conectar_cliente flatbuffers grpc svc_name = elim (parse (endpoint_str svc_name)) [
      | none ↦ none
      | some e ↦ some (e, escolher flatbuffers grpc (some (codec_name svc_name)))
    ]

    chosen {ℓ} :
        {C : Type ℓ} (svc_name : Text) (o : Option (Endpoint Addr)) (codec : C) (e : Endpoint Addr)
        (c : C)
        → ◌≡◌ {A = Option (Endpoint Addr × C)}
            (elim o [ none ↦ none | some x ↦ some (x, codec) ])
            (some (e, c))
        → ◌≡◌ {A = Endpoint Addr × C} (or_local svc_name o, codec) (e, c)
    chosen svc_name none codec e c h = cc
    chosen svc_name (some x) codec e c h = cc

    -- A client that reads its configuration without error dials the endpoint at which the server of
    -- that name, under the same variables, listens, and both use the same codec.
    pub client_finds_server {ℓ} :
        {C : Type ℓ} (flatbuffers grpc : C) (svc_name : Text) (e : Endpoint Addr) (c : C)
        → conectar_cliente flatbuffers grpc svc_name ≡ some (e, c)
        → server_from_env flatbuffers grpc svc_name ≡ (e, c)
    unfolding conectar_cliente server_from_env
    client_finds_server flatbuffers grpc svc_name e c h =
        chosen svc_name (parse (endpoint_str svc_name))
          (escolher flatbuffers grpc (some (codec_name svc_name))) e c h

  -- Reading back a printed endpoint, of either kind.
  pub parse-print :
      (show : Addr → Text)
      → ((a : Addr) → addr_of (show a) ≡ some a)
      → (e : Endpoint Addr) → parse (print show e) ≡ some e
  unfolding parse print
  parse-print show back (Endpoint.uds path) = refl
  parse-print show back (Endpoint.tcp addr) = rw (back addr)
