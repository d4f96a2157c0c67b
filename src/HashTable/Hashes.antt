-- ===== src/HashTable/Hashes.antt =====
-- mini_rtos/src/hashtable.c: the hash functions and comparisons that come with the table, and that
-- they fit one another as the table needs it. A `uint32_t` is read from its bytes from the lowest up.
use Prim.Native.Nat.{bit_xor}
use self_mini_os.Common.{
  ℕ, ◌+◌, ◌*◌, ◌/◌, ◌^◌, ◌≡◌, refl, sym, ap, ◌∙◌, ◌↔◌, Bool, true, false, ◌&&◌, List, [], ◌∷◌, ◌==◌,
  ==_iff, if◌then◌else◌, length, get_or, mul32, arith,
}
use self_mini_os.HashTable.{Hashing}
use self_mini_os.HashTable.Valid.{equal, IsHashing}

-- `FNV_PRIME` and `FNV_OFFSET_BASIS`
abbrev fnv_prime : ℕ
fnv_prime = 16777619

abbrev fnv_offset_basis : ℕ
fnv_offset_basis = 2166136261

-- the loop of `ht_hash_string` and `ht_hash_bytes`
unfoldable pub fnv : ℕ → List ℕ → ℕ
fnv hash [] = hash
fnv hash (b ∷ bs) = fnv (mul32 (bit_xor hash b) fnv_prime) bs

-- the bytes before the first null byte
pub c_string : List ℕ → List ℕ
c_string [] = []
c_string (b ∷ bs) = if b == 0 then [] else b ∷ c_string bs

-- `*(const uint32_t *)key`
pub word_at : List ℕ → ℕ
word_at key =
    get_or key 0 0 + 2 ^ 8 * get_or key 1 0 + 2 ^ 16 * get_or key 2 0 + 2 ^ 24 * get_or key 3 0

pub hash_string : List ℕ → ℕ
hash_string key = fnv fnv_offset_basis (c_string key)

pub mix : ℕ → ℕ
mix k =
    let k1 = mul32 (bit_xor k (k / 2 ^ 16)) 0x85ebca6b in
    let k2 = mul32 (bit_xor k1 (k1 / 2 ^ 13)) 0xc2b2ae35 in bit_xor k2 (k2 / 2 ^ 16)

pub hash_int : List ℕ → ℕ
unfolding mix
hash_int key = mix (word_at key)

unfoldable pub hash_bytes : List ℕ → ℕ
hash_bytes key = fnv fnv_offset_basis key

-- `memcmp` and `strcmp` against 0, on what they read
unfoldable pub same_bytes : List ℕ → List ℕ → Bool
same_bytes [] [] = true
same_bytes (a ∷ as') (b ∷ bs) = (a == b) && same_bytes as' bs
same_bytes _ _ = false

pub compare_string : List ℕ → List ℕ → Bool
compare_string a b = same_bytes (c_string a) (c_string b)

pub compare_int : List ℕ → List ℕ → Bool
compare_int a b = word_at a == word_at b

unfoldable pub compare_bytes : List ℕ → List ℕ → Bool
compare_bytes a b = same_bytes a b

-- the three pairs that a table is made with
abbrev pub strings : Hashing
strings = record { hash = hash_string; compare = compare_string }

abbrev pub ints : Hashing
ints = record { hash = hash_int; compare = compare_int }

abbrev pub bytes : Hashing
bytes = record { hash = hash_bytes; compare = compare_bytes }

same_bytes_iff : (a b : List ℕ) → (same_bytes a b ≡ true) ↔ (a ≡ b)
unfolding same_bytes
same_bytes_iff [] [] = (λ e. refl, λ e. refl)
same_bytes_iff [] (b ∷ bs) = (λ e. cc e, λ e. cc e)
same_bytes_iff (a ∷ as') [] = (λ e. cc e, λ e. cc e)
same_bytes_iff (a ∷ as') (b ∷ bs) =
    let ih = same_bytes_iff as' bs in (λ e. ground (arith, ih.0), λ e. ground (arith, ih.1))

-- A hash of `f key`, and a comparison that decides whether `f` is the same.
IsHashing_of {ℓ} :
    {X : Type ℓ} (h : Hashing) (f : List ℕ → X) (g : X → ℕ)
    → ((a b : List ℕ) → (h.compare a b ≡ true) ↔ (f a ≡ f b))
    → ((a : List ℕ) → h.hash a ≡ g (f a))
    → IsHashing h
unfolding equal
IsHashing_of h f g decides hashes = record {
  equal_refl = λ a. ground (arith, (decides a a).1 refl);
  equal_symm = λ a b e. ground (arith, (decides b a).1 (sym ((decides a b).0 (second a b e))));
  equal_trans = λ a b c e d.
      ground
        (arith, (decides a c).1 ((decides a b).0 (second a b e) ∙ (decides b c).0 (second b c d)));
  hash-equal = λ a b e. hashes a ∙ ap g ((decides a b).0 (second a b e)) ∙ sym (hashes b);
}
  where
    second :
        (a b : List ℕ) → ((length a == length b) && h.compare a b) ≡ true → h.compare a b ≡ true
    second a b e = ground arith

strings-IsHashing : IsHashing strings
unfolding compare_string hash_string
strings-IsHashing =
    IsHashing_of strings c_string (fnv fnv_offset_basis)
      (λ a b. same_bytes_iff (c_string a) (c_string b)) (λ a. refl)

ints-IsHashing : IsHashing ints
unfolding compare_int hash_int
ints-IsHashing = IsHashing_of ints word_at mix (λ a b. ==_iff (word_at a) (word_at b)) (λ a. refl)

pub bytes-IsHashing : IsHashing bytes
unfolding compare_bytes hash_bytes
bytes-IsHashing = IsHashing_of bytes (λ a. a) (fnv fnv_offset_basis) same_bytes_iff (λ a. refl)

-- Each of the three hash functions fits the comparison of its name: on keys of one size this is an
-- equivalence, and keys that it takes for equal have one hash.
pub hashes_fit : IsHashing strings × IsHashing ints × IsHashing bytes
hashes_fit = (strings-IsHashing, ints-IsHashing, bytes-IsHashing)
