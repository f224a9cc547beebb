-- ===== src/Api/Users/Created.antt =====
-- A created user is found by the name that was asked for.
use astroplant_api.Prelude.{
  ℕ, ◌≡◌, refl, sym, ◌∙◌, ap, subst, Text, Bool, true, false, ◌||◌, Option, none, some, List, [],
  ◌∷◌, ◌++◌, map, ◌==◌, all, All, first, if◌then◌else◌, ok, guard-bind-eq-ok, arith, Bool-cases,
  inl, inr, &&-eq-true,
}
use astroplant_api.Prelude.Equality.{◌≟◌, ≟_refl, nat_eq, list_eq}
use astroplant_api.Auth.Hash.{Crypto, hash_user_password}
use astroplant_api.Api.Problem.{invalid_parameters, is_empty}
use astroplant_api.Api.Models.{User}
use astroplant_api.Api.Database.{Db}
use astroplant_api.Api.Users.{
  Texts, IsTexts, IsAscii, IsLiteral, ascii_lower, hyphen, NewUser, UserBody, by_username, new_user,
  validate_username, validate, taken_parameters, inserted, create, answer_created, create_user,
}

taken_parameters-eq-nil : (a b : Option User) → is_empty (taken_parameters a b) ≡ true → a ≡ none
unfolding is_empty taken_parameters
taken_parameters-eq-nil none b h = refl
taken_parameters-eq-nil (some u) b h = cc

first-append_none {ℓ} :
    {A : Type ℓ} (p : A → Bool) (xs ys : List A)
    → first p xs ≡ none
    → first p (xs ++ ys) ≡ first p ys
first-append_none p [] ys h = refl
first-append_none p (x ∷ xs) ys h = ground (arith, first-append_none p xs ys)

lower-IsAscii : (c : Text) → IsAscii c → IsAscii (map ascii_lower c)
lower-IsAscii [] h = tt
lower-IsAscii (c ∷ cs) h = (ground (arith, h.0), lower-IsAscii cs h.1)

lower_twice : (c : Text) → map ascii_lower (map ascii_lower c) ≡ map ascii_lower c
lower_twice [] = refl
lower_twice (c ∷ cs) = rw (lower_twice cs) (ap (λ d. d ∷ map ascii_lower cs) (ground arith))

IsLiteral-of_lower : (c : ℕ) → IsLiteral (ascii_lower c) → IsLiteral c
IsLiteral-of_lower c h = ground (arith, h)

answer_created_branch :
    (free : Bool) (user : User) (with_user without : Db) {u : Unit {0}} {db' : Db}
    → answer_created (if free then (some user, with_user) else (none, without)) ≡ ok (u, db')
    → db' ≡ with_user
answer_created_branch true user a b h = cc
answer_created_branch false user a b h = cc

module _ (t : Texts) (law : IsTexts t) where
  IsLiteral-or_hyphen : (c : ℕ) → (t.is_alphanumeric c || c == hyphen) ≡ true → IsLiteral c
  IsLiteral-or_hyphen c h = elim (Bool-cases (t.is_alphanumeric c)) [
    | inl letter ↦ law.literal c letter
    | inr other ↦ ground (arith, h, other)
  ]

  all-IsLiteral :
      (c : Text)
      → all (λ d. t.is_alphanumeric d || d == hyphen) (map ascii_lower c) ≡ true
      → All IsLiteral c
  all-IsLiteral [] h = tt
  all-IsLiteral (c ∷ cs) h =
      let (one, rest) = &&-eq-true _ _ h in
      (IsLiteral-of_lower c (IsLiteral-or_hyphen (ascii_lower c) one), all-IsLiteral cs rest)

  validate_username-all :
      (c : Text)
      → validate_username t c ≡ true
      → all (λ d. t.is_alphanumeric d || d == hyphen) c ≡ true
  validate_username-all c h = ground (arith, h)

  own_name :
      (username : Text)
      → IsAscii username
      → validate_username t (t.to_lowercase username) ≡ true
      → t.ilike (t.to_lowercase username) username ≡ true
  own_name username ascii valid =
      let small = law.lower username ascii in
      let literal =
        all-IsLiteral username
          (validate_username-all _ (subst (λ c. validate_username t c ≡ true) small valid)) in
      subst (λ c. t.ilike c username ≡ true) (sym small)
        (law.matches (map ascii_lower username) username (lower-IsAscii username ascii) ascii
            literal
          ∙ ap (λ c. c ≟ map ascii_lower username) (lower_twice username)
          ∙ ≟_refl (map ascii_lower username))

  validate-eq-nil :
      (new : NewUser) → is_empty (validate t new) ≡ true → validate_username t new.username ≡ true
  unfolding validate is_empty
  validate-eq-nil new h = ground (arith, h)

  answer_created-eq-ok :
      (db : Db) (now : ℕ) (new : NewUser) (u : Unit {0}) (db' : Db)
      → answer_created (create t db now new) ≡ ok (u, db')
      → db'.users ≡ db.users ++ inserted t db now new ∷ []
  unfolding create
  answer_created-eq-ok db now new u db' h = ap (λ d. d.users) (answer_created_branch _ _ _ _ h)

  -- A user that is created gets the next id, and is the one whom a query
  -- for the requested name finds, in whatever case it was requested. The name is one of ASCII
  -- characters.
  pub by_username-create_user :
      (k : Crypto) (db : Db) (now : ℕ) (salt : List ℕ) (gravatar : Text) (user : UserBody)
      (u : Unit {0}) (db' : Db)
      → create_user t k db now salt gravatar user ≡ ok (u, db')
      → IsAscii user.username
      → by_username t db' user.username
        ≡ some (
            inserted t db now (
              new_user t gravatar user.username
                (hash_user_password k salt user.password)
                user.email_address))
  unfolding create_user validate
  by_username-create_user k db now salt gravatar user u db' h ascii =
      let new =
        new_user t gravatar user.username (hash_user_password k salt user.password)
          user.email_address in
      let (valid, h1) =
        guard-bind-eq-ok (is_empty (validate t new)) (invalid_parameters (validate t new)) _ h in
      let (fresh, h2) = guard-bind-eq-ok (is_empty _) _ (answer_created (create t db now new)) h1 in
      let unknown = taken_parameters-eq-nil _ _ fresh in
      let own = own_name user.username ascii (validate-eq-nil new valid) in
      ap (λ users. first (λ v. t.ilike v.username user.username) users)
        (answer_created-eq-ok db now new u db' h2)
      ∙ first-append_none (λ v. t.ilike v.username user.username) db.users _ unknown
      ∙ rw own refl
