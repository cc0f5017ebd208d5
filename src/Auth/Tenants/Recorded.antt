-- ===== src/Auth/Tenants/Recorded.antt =====
-- What stands behind a membership of backend/src/db/tenantRepository.ts.
use paymaster.Common.{
  ◌≡◌, refl, sym, subst, ◌∙◌, Bool, true, ◌&&◌, Option, none, some, List, [], ◌∷◌, All, leb, inl,
  inr, ◌==◌, list_eq, nat_eq, list_beq_iff, Bool-cases, Option-cases, ap, arith, Member, here,
  there,
}
use paymaster.Common.Results.{Result, ok, err, >>=-eq-ok}
use paymaster.Common.Text.{Text}
use paymaster.Auth.Scope.{is_tenant_id}
use paymaster.Auth.Tenants.{
  Membership, TenantRow, MemberRow, Tenants, tenant_id, to_tenant, to_membership, to_memberships,
  tenant_row, joined, insert_by_age, by_age, memberships_for, member_row, membership, with_role,
  joined_row, maybe_membership,
}

-- A tenant's row and the role of the subject in it, as the tables have them.
pub record IsJoined (subject : Text) (db : Tenants) (row : TenantRow × Text) : Type 0 where
  pub of_member : MemberRow
  pub in_members : Member of_member db.members
  pub of_subject : of_member.subject ≡ subject
  pub in_tenants : Member row.0 db.tenants
  pub same_tenant : row.0.id ≡ of_member.tenant_id
  pub same_role : row.1 ≡ of_member.role

-- A membership that the tables record of the subject.
pub record IsMembership (subject : Text) (db : Tenants) (m : Membership) : Type 0 where
  pub row : TenantRow × Text
  pub recorded : IsJoined subject db row
  pub made : to_membership row ≡ ok m

tenant_row-some :
    (id : Text) (tenants : List TenantRow) (t : TenantRow)
    → tenant_row id tenants ≡ some t
    → Member t tenants × (t.id ≡ id)
unfolding tenant_row
tenant_row-some id [] t h = cc
tenant_row-some id (u ∷ tenants) t h = elim (Bool-cases (u.id == id)) [
  | inl same ↦
      let found : u ≡ t = cc (rw same at h) in
      (subst (λ x. Member x (u ∷ tenants)) found here, cc (found, (list_beq_iff u.id id).0 same))
  | inr differs ↦
      let (later, named) = tenant_row-some id tenants t (rw differs at h) in (there later, named)
]

member_row-some :
    (subject id : Text) (members : List MemberRow) (m : MemberRow)
    → member_row subject id members ≡ some m
    → Member m members × (m.subject ≡ subject) × (m.tenant_id ≡ id)
unfolding member_row
member_row-some subject id [] m h = cc
member_row-some subject id (n ∷ members) m h =
    elim (Bool-cases (n.subject == subject && n.tenant_id == id)) [
      | inl same ↦
          let found : n ≡ m = cc (rw same at h) in
          let (by, at_tenant) = and_true (n.subject == subject) (n.tenant_id == id) same in
          (
            subst (λ x. Member x (n ∷ members)) found here,
            cc (found, (list_beq_iff n.subject subject).0 by),
            cc (found, (list_beq_iff n.tenant_id id).0 at_tenant),
          )
      | inr differs ↦
          let (later, by, at_tenant) = member_row-some subject id members m (rw differs at h) in
          (there later, by, at_tenant)
    ]
  where
    and_true : (a b : Bool) → (a && b) ≡ true → (a ≡ true) × (b ≡ true)
    and_true a b h = ground arith

module _ (subject : Text) (db : Tenants) where
  list_in : {E : Type 0} {A : Type 0} → Result E (List A) → List A
  list_in (ok list) = list
  list_in (err e) = []

  id_in : {E : Type 0} → Result E Membership → Text
  id_in (ok m) = m.tenant.id
  id_in (err e) = []

  joined-IsJoined :
      (members : List MemberRow)
      → ((m : MemberRow) → Member m members → Member m db.members)
      → All (IsJoined subject db) (joined subject db.tenants members)
  unfolding joined
  joined-IsJoined [] within = tt
  joined-IsJoined (m ∷ members) within =
      let rest = joined-IsJoined members (λ n i. within n (there i)) in
      elim (Bool-cases (m.subject == subject)) [
        | inr differs ↦ rw differs rest
        | inl same ↦ rw same (
            with (tenant_row m.tenant_id db.tenants) refl rest
              ((list_beq_iff m.subject subject).0 same))
      ]
    where
      with :
          (t : Option TenantRow)
          → tenant_row m.tenant_id db.tenants ≡ t
          → All (IsJoined subject db) (joined subject db.tenants members)
          → m.subject ≡ subject
          → All (IsJoined subject db) (with_role t m.role (joined subject db.tenants members))
      with none e rest by = rest
      with (some t) e rest by =
          let (found, named) = tenant_row-some m.tenant_id db.tenants t e in
          (
            record {
              of_member = m;
              in_members = within m here;
              of_subject = by;
              in_tenants = found;
              same_tenant = named;
              same_role = refl;
            },
            rest,
          )

  insert_by_age-All :
      (P : TenantRow × Text → Type 0) (row : TenantRow × Text) (rows : List (TenantRow × Text))
      → P row
      → All P rows
      → All P (insert_by_age row rows)
  unfolding insert_by_age
  insert_by_age-All P row [] h k = (h, tt)
  insert_by_age-All P row (first ∷ rows) h k =
      elim (Bool-cases (leb row.0.created_at first.0.created_at)) [
        | inl older ↦ rw older (h, k)
        | inr younger ↦ rw younger (k.0, insert_by_age-All P row rows h k.1)
      ]

  by_age-All :
      (P : TenantRow × Text → Type 0) (rows : List (TenantRow × Text))
      → All P rows
      → All P (by_age rows)
  unfolding by_age
  by_age-All P [] h = tt
  by_age-All P (row ∷ rows) h = insert_by_age-All P row (by_age rows) h.0 (by_age-All P rows h.1)

  to_memberships-IsMembership :
      (rows : List (TenantRow × Text)) (list : List Membership)
      → All (IsJoined subject db) rows
      → to_memberships rows ≡ ok list
      → All (IsMembership subject db) list
  unfolding to_memberships list_in
  to_memberships-IsMembership [] list h e =
      subst (λ r. All (IsMembership subject db) (list_in r)) e tt
  to_memberships-IsMembership (row ∷ rows) list h e =
      let (m, made, e₁) = >>=-eq-ok (to_membership row) _ e in
      let (rest, made_rest, e₂) = >>=-eq-ok (to_memberships rows) _ e₁ in
      subst (λ r. All (IsMembership subject db) (list_in r)) e₂
        (
          record { row = row; recorded = h.0; made = made },
          to_memberships-IsMembership rows rest h.1 made_rest,
        )

  pub memberships_for-IsMembership :
      (list : List Membership)
      → memberships_for subject db ≡ ok list
      → All (IsMembership subject db) list
  unfolding memberships_for
  memberships_for-IsMembership list e =
      let rows = joined subject db.tenants db.members in
      to_memberships-IsMembership (by_age rows) list
        (by_age-All (IsJoined subject db) rows (joined-IsJoined db.members (λ m i. i))) e

  joined_row-IsJoined :
      (id : Text) (t : Option TenantRow) (m : Option MemberRow) (row : TenantRow × Text)
      → tenant_row id db.tenants ≡ t
      → member_row subject id db.members ≡ m
      → joined_row t m ≡ some row
      → IsJoined subject db row × (row.0.id ≡ id)
  joined_row-IsJoined id none m row ht hm e = cc
  joined_row-IsJoined id (some t) none row ht hm e = cc
  joined_row-IsJoined id (some t) (some m) row ht hm e =
      let (found, named) = tenant_row-some id db.tenants t ht in
      let (listed, by, at_tenant) = member_row-some subject id db.members m hm in
      let whole : (t, m.role) ≡ row = some_injective e in
      subst (λ r. IsJoined subject db r × (r.0.id ≡ id)) whole
        (
          record {
            of_member = m;
            in_members = listed;
            of_subject = by;
            in_tenants = found;
            same_tenant = named ∙ sym at_tenant;
            same_role = refl;
          },
          named,
        )
    where
      some_injective : {r q : TenantRow × Text} → some r ≡ some q → r ≡ q
      some_injective h = cc

  pub to_membership-id :
      (row : TenantRow × Text) (m : Membership)
      → to_membership row ≡ ok m
      → (m.tenant.id ≡ row.0.id) × (is_tenant_id m.tenant.id ≡ true)
  unfolding to_membership to_tenant tenant_id id_in
  to_membership-id row m e = elim (Bool-cases (is_tenant_id row.0.id)) [
    | inl valid ↦
        let same : row.0.id ≡ m.tenant.id = ap id_in (rw valid at e) in
        (sym same, subst (λ t. is_tenant_id t ≡ true) same valid)
    | inr invalid ↦ absurd (cc (rw invalid at e))
  ]

  pub membership-IsMembership :
      (id : Text) (m : Membership)
      → membership subject id db ≡ ok (some m)
      → IsMembership subject db m × (m.tenant.id ≡ id)
  unfolding membership
  membership-IsMembership id m e =
      let t = tenant_row id db.tenants in
      let n = member_row subject id db.members in
      elim (Option-cases (joined_row t n)) [
        | inl nothing ↦ absurd (cc (rw nothing at e))
        | inr (row, found) ↦
            let (joins, named) = joined_row-IsJoined id t n row refl refl found in
            let made = made_of row m (rw found at e) in
            (
              record { row = row; recorded = joins; made = made },
              (to_membership-id row m made).0 ∙ named,
            )
      ]
    where
      made_of :
          (row : TenantRow × Text) (m : Membership)
          → maybe_membership (some row) ≡ ok (some m)
          → to_membership row ≡ ok m
      made_of row m e = let (x, made, same) = >>=-eq-ok (to_membership row) _ e in made ∙ cc same
