-- ===== src/Conf/Build/Material.antt =====
-- src/conf/endpoint.rs: the digest of the certificate material of an endpoint. The options are those
-- that kaminari reads; files and the hash are parameters.
use realm.Base.{
  ℕ, leb, if◌then◌else◌, String, List, [], ◌∷◌, ◌++◌, length, Option, none, some, is_some, Bool,
  ◌||◌,
}
use realm.Conf.Full.{EndpointConf}

abbrev pub max_material_bytes : ℕ
max_material_bytes = 1048576

-- What is hashed: field and option names, and the tags of `MaterialTag` with what follows them.
pub data Piece : Type 0 where
  word path : String → Piece
  absent named unreadable : Piece
  read : List ℕ → Piece

-- The view of kaminari of a transport string, the files, and the hash.
pub record Material : Type 0 where
  pub has_tls : String → Bool
  pub get_opt : String → String → Option String
  pub read_file : String → Option (List ℕ)
  pub hash : List Piece → ℕ

module _ (m : Material) where
  abbrev pub within_cap : Option (List ℕ) → Option (List ℕ)
  within_cap none = none
  within_cap (some bs) = if leb (length bs) max_material_bytes then some bs else none

  unfoldable pub read_material : String → Option (List ℕ)
  read_material p = within_cap (m.read_file p)

  abbrev pub contents : Option (List ℕ) → Piece
  contents none = unreadable
  contents (some bs) = read bs

  -- The path that an option names, under `tls` only.
  abbrev pub path_of : String → Option String → Option String
  path_of option none = none
  path_of option (some s) = if m.has_tls s then m.get_opt s option else none

  abbrev pub named_pieces : Option String → List Piece
  named_pieces none = absent ∷ []
  named_pieces (some p) = named ∷ path p ∷ contents (read_material p) ∷ []

  abbrev pub pieces_of : String → String → Option String → List Piece
  pieces_of field option transport =
      word field ∷ word option ∷ named_pieces (path_of option transport)

  unfoldable pub digest_material : EndpointConf → Option ℕ
  unfolding read_material
  digest_material this =
      if is_some (path_of "cert" this.listen_transport)
        || is_some (path_of "key" this.listen_transport)
        || is_some (path_of "ca" this.remote_transport)
      then some (
          m.hash (
            pieces_of "listen_transport" "cert" this.listen_transport
            ++ pieces_of "listen_transport" "key" this.listen_transport
            ++ pieces_of "remote_transport" "ca" this.remote_transport))
      else none

  unfoldable pub refresh : EndpointConf → EndpointConf
  unfolding digest_material
  refresh this = record this { material_digest = digest_material this }
