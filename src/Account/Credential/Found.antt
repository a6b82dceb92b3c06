-- ===== src/Account/Credential/Found.antt =====
-- internal/account/repository/credential_repository_impl.go: what the query for an account and a
-- type finds.
use gosso.Prelude.{
  ◌≡◌, refl, ◌∙◌, inl, inr, Bool, false, ◌&&◌, ◌||◌, List, [], ◌∷◌, String, arith, Bool-cases,
}
use gosso.Oauth2.Client.{Time}
use gosso.Account.Credential.{Credential, CredentialType}
use gosso.Account.Credential.Rows.{
  has, where_rows, before, put_row, sort_rows, is_of, find_by_account_and_type,
  soft_delete_credentials_by_type,
}

-- Sorting leaves what a list has.
put-has :
    (p : Credential → Bool) (a : Credential) (xs : List Credential)
    → has p (put_row a xs) ≡ (p a || has p xs)
unfolding put_row
put-has p a [] = refl
put-has p a (b ∷ rest) = elim (Bool-cases (before b a)) [
  | inl first ↦ rw first (ground (arith, put-has p a rest))
  | inr last ↦ rw last refl
]

sort-has : (p : Credential → Bool) (xs : List Credential) → has p (sort_rows xs) ≡ has p xs
unfolding sort_rows
sort-has p [] = refl
sort-has p (a ∷ rest) = ground (arith, put-has p a (sort_rows rest), sort-has p rest)

where-has :
    (p q : Credential → Bool) (xs : List Credential)
    → has p (where_rows q xs) ≡ has (λ x. q x && p x) xs
where-has p q [] = refl
where-has p q (x ∷ rest) = ground (arith, where-has p q rest)

pub find-has :
    (t : CredentialType) (p : Credential → Bool) (account : String) (rows : List Credential)
    → has p (find_by_account_and_type account t rows) ≡ has (λ x. is_of account t x && p x) rows
unfolding find_by_account_and_type
find-has t p account rows = sort-has p _ ∙ where-has p (is_of account t) rows

pub has-same :
    (p q : Credential → Bool) (xs : List Credential)
    → ((x : Credential) → p x ≡ q x)
    → has p xs ≡ has q xs
has-same p q [] h = refl
has-same p q (x ∷ rest) h = ground (arith, h x, has-same p q rest h)

-- After a deletion by type, the query finds nothing of the type, and no more of another.
pub deleted-none :
    (t : CredentialType) (p : Credential → Bool) (now : Time) (account : String)
    (rows : List Credential)
    → has (λ x. is_of account t x && p x) (soft_delete_credentials_by_type now account t rows)
      ≡ false
unfolding soft_delete_credentials_by_type
deleted-none t p now account [] = refl
deleted-none t p now account (x ∷ rest) =
    let later = deleted-none t p now account rest in
    elim (Bool-cases (is_of account t x)) [
      | inl such ↦ rw such (ground (arith, later))
      | inr other ↦ rw other (ground (arith, other, later))
    ]

pub deleted-no_more :
    (t u : CredentialType) (p : Credential → Bool) (now : Time) (account : String)
    (rows : List Credential)
    → has (λ x. is_of account u x && p x) rows ≡ false
    → has (λ x. is_of account u x && p x) (soft_delete_credentials_by_type now account t rows)
      ≡ false
unfolding soft_delete_credentials_by_type
deleted-no_more t u p now account [] h = refl
deleted-no_more t u p now account (x ∷ rest) h =
    let later = deleted-no_more t u p now account rest (ground arith) in
    elim (Bool-cases (is_of account t x)) [
      | inl such ↦ rw such (ground (arith, later))
      | inr other ↦ rw (other, later) (ground arith)
    ]
