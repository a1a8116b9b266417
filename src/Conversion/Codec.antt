-- ===== src/Conversion/Codec.antt =====
-- What the conversions take from crit: its configurations in two versions, their YAML and the
-- conversions from v1alpha2 to v1alpha1 of crit itself.
use cluster_api_bootstrap_pr.Prelude.{
  String, false, List, [], ◌∷◌, map, sym, ok_injective, Result, ok, str_eq, ◌≡◌, refl, ◌>>=◌,
  >>=-eq-ok,
}

-- What yaml.UnmarshalFromYaml returns: one of the two configurations, or another object.
pub data Decoded (C D : Type 0) : Type 0 where
  control_plane : C → Decoded C D
  worker : D → Decoded C D
  other : Decoded C D

-- `A` and `B` are the configurations of control planes and workers in v1alpha1, `C` and `D` those in
-- v1alpha2. The YAML is written and read in v1alpha2; the conversions write into an existing value.
pub record Codec (A B C D : Type 0) : Type 0 where
  pub marshal_control_plane : A → Result String
  pub marshal_worker : B → Result String
  pub unmarshal : String → Result (Decoded C D)
  pub convert_control_plane : C → A → Result A
  pub convert_worker : D → B → Result B
  pub empty_control_plane : A
  pub empty_worker : B

-- What MarshalToYaml writes is not empty, and is read and converted back to what was written.
pub record IsLossless {A B C D : Type 0} (codec : Codec A B C D) : Type 0 where
  pub control_plane_back :
      (a : A) (text : String)
      → codec.marshal_control_plane a ≡ ok text
      → (str_eq text "" ≡ false)
        × (c : C) × (codec.unmarshal text ≡ ok (control_plane c))
        × (codec.convert_control_plane c codec.empty_control_plane ≡ ok a)
  pub worker_back :
      (b : B) (text : String)
      → codec.marshal_worker b ≡ ok text
      → (str_eq text "" ≡ false)
        × (d : D) × (codec.unmarshal text ≡ ok (worker d))
        × (codec.convert_worker d codec.empty_worker ≡ ok b)

-- `make([]T, len(items))` and the conversion of every item into its new value
abbrev pub convert_items {ℓ κ} :
    {A : Type ℓ} {B : Type κ} → (A → Result B) → List A → Result (List B)
convert_items convert [] = ok []
convert_items convert (x ∷ xs) = do y ← convert x; ys ← convert_items convert xs; ok (y ∷ ys)

-- The items converted and converted back.
pub convert_items-back {ℓ κ} :
    {A : Type ℓ} {B : Type κ} (convert : A → Result B) (back : B → Result A) (kept : A → A)
    → ((x : A) (y : B) → convert x ≡ ok y → back y ≡ ok (kept x))
    → (xs : List A) (ys : List B) → convert_items convert xs ≡ ok ys
    → convert_items back ys ≡ ok (map kept xs)
convert_items-back convert back kept returns [] ys h = rw (sym (ok_injective [] ys h)) refl
convert_items-back convert back kept returns (x ∷ xs) ys h =
    let (y, converted, h') = >>=-eq-ok (convert x) _ h in
    let (ys', rest, h'') = >>=-eq-ok (convert_items convert xs) _ h' in
    rw
      (
        sym (ok_injective (y ∷ ys') ys h''),
        returns x y converted,
        convert_items-back convert back kept returns xs ys' rest,
      )
      refl
