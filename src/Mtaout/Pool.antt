-- ===== src/Mtaout/Pool.antt =====
-- `Pool` of services/mtaout/mtaout.go. `hash` of hash/fnv (32-bit FNV-1a) reads the UTF-8 bytes of
-- the tenant.
use Prim.Native.Nat.{bit_xor}
use Prim.Native.Char.{code}
use vulos_mail.Common.{
  ℕ, zero, suc, ◌+◌, ◌*◌, ◌/◌, ◌%◌, ◌^◌, ◌<◌, ◌≡◌, refl, String, List, [], ◌∷◌, ◌++◌, Bool, true,
  false, ◌||◌, ◌==◌, ltb, if◌then◌else◌, length, arith, str_eq_refl,
}
use vulos_mail.Mtaout.{TrafficClass, transactional, bulk}

pub record Pool : Type 0 where
  pub transactional_ips : List String
  pub bulk_ips : List String

unfoldable pub ips_of : Pool → TrafficClass → List String
ips_of p transactional = p.transactional_ips
ips_of p bulk = p.bulk_ips

-- the UTF-8 bytes of a code point
utf8 : ℕ → List ℕ
utf8 c =
    if ltb c 128
    then c ∷ []
    else if ltb c 2048
    then (192 + c / 64) ∷ (128 + c % 64) ∷ []
    else if ltb c 65536
    then (224 + c / 4096) ∷ (128 + c / 64 % 64) ∷ (128 + c % 64) ∷ []
    else (240 + c / 262144) ∷ (128 + c / 4096 % 64) ∷ (128 + c / 64 % 64) ∷ (128 + c % 64) ∷ []

bytes : String → List ℕ
bytes String.[] = []
bytes (String.◌∷◌ c s) = utf8 (code c) ++ bytes s

-- h ^= byte; h *= prime, on uint32
fnv_bytes : ℕ → List ℕ → ℕ
fnv_bytes h [] = h
fnv_bytes h (b ∷ bs) = fnv_bytes (bit_xor h b * 16777619 % 2 ^ 32) bs

unfoldable pub hash : String → ℕ
unfolding fnv_bytes bytes utf8
hash s = fnv_bytes 2166136261 (bytes s)

nth : List String → ℕ → String
nth [] i = ""
nth (x ∷ xs) zero = x
nth (x ∷ xs) (suc i) = nth xs i

-- `IPFor`
unfoldable pub ip_for : Pool → String → TrafficClass → String
unfolding ips_of nth
ip_for p tenant class = elim (ips_of p class) [
  | [] ↦ ""
  | x ∷ xs ↦ nth (x ∷ xs) (hash tenant % (length xs + 1))
]

unfoldable pub among : String → List String → Bool
among s [] = false
among s (x ∷ xs) = x == s || among s xs

nth-among : (xs : List String) (i : ℕ) → i < length xs → among (nth xs i) xs ≡ true
unfolding nth among
nth-among [] i h = absurd (omega arith)
nth-among (x ∷ xs) zero h = rw (str_eq_refl x) refl
nth-among (x ∷ xs) (suc i) h = ground (arith, nth-among xs i)

-- The source address of a tenant is one of the addresses of its traffic class, if the class has any.
pub ip_for-among :
    (p : Pool) (tenant : String) (class : TrafficClass)
    → 0 < length (ips_of p class)
    → among (ip_for p tenant class) (ips_of p class) ≡ true
unfolding ip_for
ip_for-among p tenant class h = go (ips_of p class) h
  where
    go :
        (ips : List String)
        → 0 < length ips
        → among (elim ips [ [] ↦ "" | x ∷ xs ↦ nth (x ∷ xs) (hash tenant % (length xs + 1)) ]) ips
          ≡ true
    go [] k = absurd (omega arith)
    go (x ∷ xs) k = nth-among (x ∷ xs) (hash tenant % (length xs + 1)) (omega arith)
