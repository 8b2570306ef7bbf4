-- ===== src/Config/Topo/Perm.antt =====
-- Permutations, for the order of aerospike_sdk/policy/sdk_config_loader.py.
use mathlib.Core.List.{Permᴰ}
use aerospike_client_python.Base.{
  suc, Bool, List, [], ◌∷◌, ◌++◌, length, any, All, ◌≡◌, refl, sym, ap, subst, ◌∙◌, inl, inr,
  Bool-cases,
}

pub perm_refl : {A : Type 0} (xs : List A) → Permᴰ xs xs
perm_refl [] = Permᴰ.nil
perm_refl (x ∷ xs) = Permᴰ.cons refl (perm_refl xs)

pub perm_symm : {A : Type 0} {xs ys : List A} → Permᴰ xs ys → Permᴰ ys xs
perm_symm Permᴰ.nil = Permᴰ.nil
perm_symm (Permᴰ.cons e p) = Permᴰ.cons (sym e) (perm_symm p)
perm_symm (Permᴰ.swap e g) = Permᴰ.swap (sym g) (sym e)
perm_symm (Permᴰ.trans p q) = Permᴰ.trans (perm_symm q) (perm_symm p)

pub perm_front : {A : Type 0} (x : A) (xs ys : List A) → Permᴰ (x ∷ xs ++ ys) (xs ++ x ∷ ys)
perm_front x [] ys = perm_refl (x ∷ ys)
perm_front x (z ∷ xs) ys = Permᴰ.trans (Permᴰ.swap refl refl) (Permᴰ.cons refl (perm_front x xs ys))

pub perm_after :
    {A : Type 0} (zs : List A) {xs ys : List A} → Permᴰ xs ys → Permᴰ (zs ++ xs) (zs ++ ys)
perm_after [] p = p
perm_after (z ∷ zs) p = Permᴰ.cons refl (perm_after zs p)

pub any-perm : {A : Type 0} (f : A → Bool) {xs ys : List A} → Permᴰ xs ys → any f xs ≡ any f ys
any-perm f Permᴰ.nil = refl
any-perm f (Permᴰ.cons e p) = rw (e, any-perm f p) refl
any-perm f (Permᴰ.swap {a = a} {b = b} e g) = elim (Bool-cases (f a)) [
  | inl h ↦ elim (Bool-cases (f b)) [
    | inl k ↦ rw (sym e, sym g, h, k) refl
    | inr k ↦ rw (sym e, sym g, h, k) refl
  ]
  | inr h ↦ elim (Bool-cases (f b)) [
    | inl k ↦ rw (sym e, sym g, h, k) refl
    | inr k ↦ rw (sym e, sym g, h, k) refl
  ]
]
any-perm f (Permᴰ.trans p q) = any-perm f p ∙ any-perm f q

pub length-perm : {A : Type 0} {xs ys : List A} → Permᴰ xs ys → length xs ≡ length ys
length-perm Permᴰ.nil = refl
length-perm (Permᴰ.cons e p) = ap suc (length-perm p)
length-perm (Permᴰ.swap e g) = refl
length-perm (Permᴰ.trans p q) = length-perm p ∙ length-perm q

pub All-perm : {A : Type 0} (P : A → Type 0) {xs ys : List A} → Permᴰ xs ys → All P ys → All P xs
All-perm P Permᴰ.nil h = tt
All-perm P (Permᴰ.cons e p) h = (subst P (sym e) h.0, All-perm P p h.1)
All-perm P (Permᴰ.swap e g) h = (subst P (sym e) h.1.0, (subst P (sym g) h.0, h.1.1))
All-perm P (Permᴰ.trans p q) h = All-perm P p (All-perm P q h)
