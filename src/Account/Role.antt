-- ===== src/Account/Role.antt =====
-- internal/account/domain/role.go: a role and the set of its permissions.
use gosso.Prelude.{
  ◌≡◌, refl, inl, inr, Bool, true, false, not, ◌&&◌, ◌||◌, Option, none, some, List, [], ◌∷◌, ◌++◌,
  String, arith, eq_iff, ltb, if◌then◌else◌, is_empty, ◌==◌, contains, Bool-cases, Option-cases,
  Result, ok, err, ◌>>◌, reject, trim_space, byte_len,
}
use gosso.Oauth2.Client.{Time, Metadata}

pub data RoleError : Type 0 where
  role_name_required role_name_too_long role_description_too_long : RoleError
  role_already_deleted : RoleError

pub record Role : Type 0 where
  pub id : String
  pub name : String
  pub description : Option String
  pub permissions : List String
  pub metadata : Metadata
  pub created_at : Time
  pub updated_at : Time
  pub deleted_at : Option Time

-- `description != nil && len(*description) > 1024`
abbrev too_long : Option String → Bool
too_long none = false
too_long (some d) = ltb 1024 (byte_len d)

unfoldable pub new_role : String → Time → String → Option String → Result RoleError Role
new_role id now name description = do
  reject (is_empty (trim_space name)) role_name_required
  reject (ltb 255 (byte_len (trim_space name))) role_name_too_long
  reject (too_long description) role_description_too_long
  ok (record {
    id = id;
    name = trim_space name;
    description = description;
    permissions = [];
    metadata = some [];
    created_at = now;
    updated_at = now;
    deleted_at = none;
  })

abbrev is_set : Option Time → Bool
is_set none = false
is_set (some t) = true

-- A role is `none` where the receiver is nil.
unfoldable pub is_deleted : Option Role → Bool
is_deleted none = false
is_deleted (some r) = is_set r.deleted_at

unfoldable pub soft_delete : Time → Option Role → Result RoleError Role
unfolding is_deleted
soft_delete now none = err role_already_deleted
soft_delete now (some r) = do
  reject (is_deleted (some r)) role_already_deleted
  ok (record r { deleted_at = some now; updated_at = now })

-- On a nil role this and the next do nothing.
unfoldable pub add_permission : Time → String → Role → Role
add_permission now permission r =
    let p = trim_space permission in
    if is_empty p
    then r
    else if contains r.permissions p
    then r
    else record r { permissions = r.permissions ++ (p ∷ []); updated_at = now }

-- The loop that cuts out the first occurrence, if there is one, and returns.
unfoldable pub cut : String → List String → Option (List String)
cut p [] = none
cut p (q ∷ qs) =
    let rest = cut p qs in
    if q == p then some qs else elim rest [ none ↦ none | some kept ↦ some (q ∷ kept) ]

-- `r.Permissions` with the slice that was cut, and the time if there was a cut.
abbrev with_cut : Time → Role → Option (List String) → Role
with_cut now r none = r
with_cut now r (some kept) = record r { permissions = kept; updated_at = now }

unfoldable pub remove_permission : Time → String → Role → Role
remove_permission now permission r = with_cut now r (cut (trim_space permission) r.permissions)

unfoldable pub has_permission : Option Role → String → Bool
has_permission none permission = false
has_permission (some r) permission = contains r.permissions (trim_space permission)

contains-append :
    (ps : List String) (p q : String) → contains (ps ++ (p ∷ [])) q ≡ (contains ps q || p == q)
unfolding contains
contains-append [] p q = ground arith
contains-append (r ∷ ps) p q = ground (arith, contains-append ps p q)

-- No permission occurs twice.
abbrev pub IsUnique : List String → Type 0
IsUnique [] = Unit {0}
IsUnique (p ∷ ps) = (contains ps p ≡ false) × IsUnique ps

abbrev after_cut : List String → Option (List String) → List String
after_cut ps none = ps
after_cut ps (some kept) = kept

cut-contains :
    (p q : String) (ps : List String)
    → IsUnique ps
    → contains (after_cut ps (cut p ps)) q ≡ (contains ps q && not (q == p))
unfolding contains cut
cut-contains p q [] u = refl
cut-contains p q (r ∷ ps) (u, us) =
    ground (arith, eq_iff r p, eq_iff q p, eq_iff r q, cut-contains p q ps us, u)

cut-IsUnique : (p : String) (ps : List String) → IsUnique ps → IsUnique (after_cut ps (cut p ps))
unfolding cut
cut-IsUnique p [] u = tt
cut-IsUnique p (r ∷ ps) (u, us) = elim (Bool-cases (r == p)) [
  | inl here ↦ rw here us
  | inr there ↦ elim (Option-cases (cut p ps)) [
    | inl same ↦ rw (there, same) (u, us)
    | inr (kept, e) ↦
        let v = cut-IsUnique p ps us in
        let c = cut-contains p r ps us in rw (there, e) (ground (arith, u, rw e at c), rw e at v)
  ]
]

append-IsUnique :
    (ps : List String) (p : String)
    → contains ps p ≡ false
    → IsUnique ps
    → IsUnique (ps ++ (p ∷ []))
unfolding contains
append-IsUnique [] p n u = (refl, tt)
append-IsUnique (r ∷ ps) p n (u, us) = (
  ground (arith, contains-append ps p r, eq_iff p r, eq_iff r p, u),
  append-IsUnique ps p (ground arith) us,
)

-- A permission that is added is there afterwards, unless it is only white space, and what is asked
-- of any other does not change.
pub has_permission-add :
    (now : Time) (p q : String) (r : Role)
    → has_permission (some (add_permission now p r)) q
      ≡ (has_permission (some r) q || not (is_empty (trim_space p)) && trim_space p == trim_space q)
unfolding has_permission add_permission
has_permission-add now p q r = ground (
  arith,
  contains-append r.permissions (trim_space p) (trim_space q),
  eq_iff (trim_space p) (trim_space q),
  eq_iff (trim_space p) "",
)

permissions-remove :
    (now : Time) (p : String) (r : Role)
    → (remove_permission now p r).permissions
      ≡ after_cut r.permissions (cut (trim_space p) r.permissions)
unfolding remove_permission
permissions-remove now p r = elim (Option-cases (cut (trim_space p) r.permissions)) [
  | inl e ↦ rw e refl
  | inr (kept, e) ↦ rw e refl
]

-- Of a role with no permission twice, one that is removed is not there afterwards, and what is
-- asked of any other does not change.
pub has_permission-remove :
    (now : Time) (p q : String) (r : Role)
    → IsUnique r.permissions
    → has_permission (some (remove_permission now p r)) q
      ≡ (has_permission (some r) q && not (trim_space q == trim_space p))
unfolding has_permission
has_permission-remove now p q r u =
    rw (permissions-remove now p r) (cut-contains (trim_space p) (trim_space q) r.permissions u)

pub data Change : Type 0 where
  adds removes : Time → String → Change

abbrev change : Change → Role → Role
change (adds now p) r = add_permission now p r
change (removes now p) r = remove_permission now p r

pub changes : List Change → Role → Role
changes [] r = r
changes (c ∷ cs) r = changes cs (change c r)

change-IsUnique :
    (c : Change) (r : Role) → IsUnique r.permissions → IsUnique (change c r).permissions
unfolding add_permission
change-IsUnique (adds now p) r u = elim (Bool-cases (is_empty (trim_space p))) [
  | inl blank ↦ rw blank u
  | inr given ↦ elim (Bool-cases (contains r.permissions (trim_space p))) [
    | inl there ↦ rw (given, there) u
    | inr new ↦ rw (given, new) (append-IsUnique r.permissions (trim_space p) new u)
  ]
]
change-IsUnique (removes now p) r u =
    rw (permissions-remove now p r) (cut-IsUnique (trim_space p) r.permissions u)

changes-IsUnique :
    (cs : List Change) (r : Role) → IsUnique r.permissions → IsUnique (changes cs r).permissions
unfolding changes
changes-IsUnique [] r u = u
changes-IsUnique (c ∷ cs) r u = changes-IsUnique cs (change c r) (change-IsUnique c r u)

-- After any additions and removals on a role that was just made, no permission occurs twice.
pub new_role-changes :
    (id : String) (now : Time) (name : String) (description : Option String) (r : Role)
    (cs : List Change)
    → new_role id now name description ≡ ok r
    → IsUnique (changes cs r).permissions
unfolding new_role
new_role-changes id now name description r cs h =
    let none_yet : r.permissions ≡ [] = ground arith in changes-IsUnique cs r (rw none_yet tt)
