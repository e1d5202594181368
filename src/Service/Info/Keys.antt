-- ===== src/Service/Info/Keys.antt =====
-- The keys of the map that PopulateInstanceInfo makes of a cluster's details.
use Prim.Native.Char.{code}
use provider_operator_exampl.Base.{
  first_code, length, ℕ, zero, suc, ◌+◌, ◌<◌, String, ◌<>◌, List, [], ◌∷◌, some, ◌≡◌, ◌≢◌, refl,
  sym, ap, ◌∙◌, get_elem?, itoa, itoa_injective, arith,
}
use provider_operator_exampl.Base.Dict.{Dict, lookup, insert, lookup-insert}
use provider_operator_exampl.Service.{Region, Cluster}
use provider_operator_exampl.Service.Info.{
  name_key, dns_key, add_regions, base_info, populate_instance_info,
}
use text.Mathlib.TextLemmas.{cons-append, nil-append, append_cancel_left, append_cancel_right}

-- The code of the last character, or `d` for an empty text.
last_code : ℕ → String → ℕ
last_code d String.[] = d
last_code d (String.◌∷◌ c s) = last_code (code c) s

last_code-append : (d : ℕ) (s t : String) → last_code d (s <> t) ≡ last_code (last_code d s) t
unfolding last_code
last_code-append d String.[] t = rw nil-append
last_code-append d (String.◌∷◌ c s) t = rw cons-append (last_code-append (code c) s t)

name_key-last : (n d : ℕ) → last_code d (name_key n) ≡ b'e'
unfolding name_key
name_key-last n d =
    last_code-append d "regions." _
    ∙ (last_code-append _ (itoa n) ".name" ∙ unfold last_code in refl)

dns_key-last : (n d : ℕ) → last_code d (dns_key n) ≡ b's'
unfolding dns_key
dns_key-last n d =
    last_code-append d "regions." _
    ∙ (last_code-append _ (itoa n) ".sqlDns" ∙ unfold last_code in refl)

name_key-ne-dns_key : (m n : ℕ) → name_key m ≢ dns_key n
name_key-ne-dns_key m n h =
    absurd (omega (arith, name_key-last m 0, dns_key-last n 0, ap (last_code 0) h))

name_key_injective : (m n : ℕ) → name_key m ≡ name_key n → m ≡ n
unfolding name_key
name_key_injective m n h =
    itoa_injective m n
      (append_cancel_right (itoa m) (itoa n) ".name" (append_cancel_left "regions." _ _ h))

dns_key_injective : (m n : ℕ) → dns_key m ≡ dns_key n → m ≡ n
unfolding dns_key
dns_key_injective m n h =
    itoa_injective m n
      (append_cancel_right (itoa m) (itoa n) ".sqlDns" (append_cancel_left "regions." _ _ h))

name_key-first : (n : ℕ) → first_code (name_key n) ≡ b'r'
unfolding name_key
name_key-first n = ap first_code (cons-append _ "egions." (itoa n <> ".name"))

dns_key-first : (n : ℕ) → first_code (dns_key n) ≡ b'r'
unfolding dns_key
dns_key-first n = ap first_code (cons-append _ "egions." (itoa n <> ".sqlDns"))

-- A key that is no region's after the place `i`.
abbrev IsOther : ℕ → String → Type 0
IsOther i k = (j : ℕ) → i < j → (k ≢ name_key j) × (k ≢ dns_key j)

lookup-insert_ne :
    (k j : String) (v : String) (d : Dict String) → k ≢ j → lookup k (insert j v d) ≡ lookup k d
lookup-insert_ne k j v d h = ground (arith, lookup-insert k j v d)

lookup-insert_self : (k v : String) (d : Dict String) → lookup k (insert k v d) ≡ some v
lookup-insert_self k v d = ground (arith, lookup-insert k k v d)

lookup-add_regions_other :
    (k : String) (i : ℕ) (regions : List Region) (d : Dict String)
    → IsOther i k
    → lookup k (add_regions i regions d) ≡ lookup k d
unfolding add_regions
lookup-add_regions_other k i [] d h = refl
lookup-add_regions_other k i (r ∷ regions) d h =
    let named = insert (name_key (suc i)) r.name d in
    lookup-add_regions_other k (suc i) regions _ (λ j lt. h j (omega arith))
    ∙ (lookup-insert_ne k (dns_key (suc i)) r.sql_dns named (h (suc i) (omega arith)).1
        ∙ lookup-insert_ne k (name_key (suc i)) r.name d (h (suc i) (omega arith)).0)

name_key-IsOther : (i : ℕ) → IsOther i (name_key i)
name_key-IsOther i j lt =
    (λ e. absurd (omega (arith, name_key_injective i j e)), λ e. name_key-ne-dns_key i j e)

dns_key-IsOther : (i : ℕ) → IsOther i (dns_key i)
dns_key-IsOther i j lt =
    (λ e. name_key-ne-dns_key j i (sym e), λ e. absurd (omega (arith, dns_key_injective i j e)))

-- Both entries of a region hold what the region says.
abbrev pub Records : ℕ → Region → Dict String → Type 0
Records place r d =
    (lookup (name_key place) d ≡ some r.name) × (lookup (dns_key place) d ≡ some r.sql_dns)

add_regions-Records :
    (i n place : ℕ) (regions : List Region) (d : Dict String) {r : Region}
    → get_elem? regions n ≡ some r
    → place ≡ suc (i + n)
    → Records place r (add_regions i regions d)
unfolding add_regions
add_regions-Records i n place [] d h e = absurd (ground arith)
add_regions-Records i (suc n) place (s ∷ regions) d h e =
    add_regions-Records (suc i) n place regions _ h (omega arith)
add_regions-Records i zero place (s ∷ regions) d {r} h e =
    let named = insert (name_key (suc i)) s.name d in
    let same : s ≡ r = ground arith in
    let here : place ≡ suc i = omega arith in
    rw (here, ← same)
      (
        lookup-add_regions_other (name_key (suc i)) (suc i) regions _ (name_key-IsOther (suc i))
            ∙ (lookup-insert_ne (name_key (suc i)) (dns_key (suc i)) s.sql_dns named
                  (name_key-ne-dns_key (suc i) (suc i))
                ∙ lookup-insert_self (name_key (suc i)) s.name d),
        lookup-add_regions_other (dns_key (suc i)) (suc i) regions _ (dns_key-IsOther (suc i))
            ∙ lookup-insert_self (dns_key (suc i)) s.sql_dns named,
      )

not_r-IsOther : (k : String) → first_code k ≢ b'r' → IsOther 0 k
not_r-IsOther k h j lt =
    (λ e. h (ap first_code e ∙ name_key-first j), λ e. h (ap first_code e ∙ dns_key-first j))

-- The details of a cluster whose two times are set record the region at the index `n` under the
-- place `n + 1`, its name and its address, and they keep the number of the regions; any key that
-- does not begin with the letter r reads as in the map literal.
pub populate_instance_info_lem :
    (cluster : Cluster) (created updated : String) (n : ℕ) (r : Region) (k : String)
    → cluster.created_at ≡ some created
    → cluster.updated_at ≡ some updated
    → get_elem? cluster.regions n ≡ some r
    → first_code k ≢ b'r'
    → (info : Dict String) × (populate_instance_info cluster ≡ some info)
      × (lookup (name_key (suc n)) info ≡ some r.name)
      × (lookup (dns_key (suc n)) info ≡ some r.sql_dns)
      × (lookup "numOfRegions" info ≡ some (itoa (length cluster.regions)))
      × (lookup k info ≡ lookup k (base_info cluster created updated))
unfolding populate_instance_info
populate_instance_info_lem cluster created updated n r k c u h not_r =
    let base = base_info cluster created updated in
    let (name, dns) = add_regions-Records 0 n (suc n) cluster.regions base h (omega arith) in
    (
      add_regions 0 cluster.regions base,
      ground arith,
      name,
      dns,
      lookup-add_regions_other "numOfRegions" 0 cluster.regions base
            (not_r-IsOther "numOfRegions" (omega arith))
          ∙ (unfold lookup base_info in ground arith),
      lookup-add_regions_other k 0 cluster.regions base (not_r-IsOther k not_r),
    )
