-- ===== src/Features.antt =====
-- features.go and the hash types of hash.go: what a backend can do, and which hash to use.
use omnistorage.Base.{
  Bool, true, false, ◌&&◌, ◌||◌, List, [], ◌∷◌, ◌≡◌, refl, ◌≢◌, arith, if◌then◌else◌,
}
use omnistorage.Base.{Eq, ◌==◌}

pub data HashType : Type 0 where
  hash_none hash_md5 hash_sha1 hash_sha256 hash_crc32c : HashType

pub HashType-discrete : Discrete HashType
HashType-discrete = hlevel

instance unfoldable pub hash_type_eq : Eq HashType
hash_type_eq = record { dec = HashType-discrete }

pub record Features : Type 0 where
  pub copy : Bool
  pub move : Bool
  pub mkdir : Bool
  pub rmdir : Bool
  pub stat : Bool
  pub hashes : List HashType
  pub can_stream : Bool
  pub server_side_encryption : Bool
  pub versioning : Bool
  pub range_read : Bool
  pub list_prefix : Bool
  pub set_mod_time : Bool
  pub custom_metadata : Bool

-- The loop of `SupportsHash`.
unfoldable pub holds_hash : HashType → List HashType → Bool
holds_hash t [] = false
holds_hash t (h ∷ hs) = h == t || holds_hash t hs

unfoldable pub supports_hash : Features → HashType → Bool
unfolding holds_hash
supports_hash f t = holds_hash t f.hashes

abbrev pub preference_order : List HashType
preference_order = hash_sha256 ∷ hash_sha1 ∷ hash_md5 ∷ hash_crc32c ∷ []

-- The loops of `PreferredHash` and `CommonHash`: the first type that passes.
unfoldable pub first_hash : (HashType → Bool) → List HashType → HashType
first_hash test [] = hash_none
first_hash test (t ∷ ts) = let rest = first_hash test ts in if test t then t else rest

unfoldable pub preferred_hash : Features → HashType
unfolding first_hash
preferred_hash f = first_hash (supports_hash f) preference_order

unfoldable pub common_hash : Features → Features → HashType
unfolding first_hash
common_hash f other = first_hash (λ t. supports_hash f t && supports_hash other t) preference_order

-- The common hash does not depend on which side asks. If it is not none then both sides support
-- it, and if it is none then they support no type together but perhaps none itself.
pub common_hash_agreed :
    (f g : Features)
    → (common_hash f g ≡ common_hash g f)
      × (common_hash f g ≢ hash_none
          → (supports_hash f (common_hash f g) ≡ true) × (supports_hash g (common_hash f g) ≡ true))
      × (common_hash f g ≡ hash_none
          → (t : HashType) → t ≢ hash_none
          → (supports_hash f t && supports_hash g t) ≡ false)
unfolding common_hash
common_hash_agreed f g = (
  ground arith,
  (λ h. ground arith),
  (λ h t. elim t as (λ t. t ≢ hash_none → (supports_hash f t && supports_hash g t) ≡ false) [
    | hash_none ↦ λ k. absurd (k refl)
    | hash_md5 ↦ λ k. ground arith
    | hash_sha1 ↦ λ k. ground arith
    | hash_sha256 ↦ λ k. ground arith
    | hash_crc32c ↦ λ k. ground arith
  ]),
)
