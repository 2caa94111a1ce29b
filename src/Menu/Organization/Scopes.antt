-- ===== src/Menu/Organization/Scopes.antt =====
-- The Subjects of the claims of `_organization_claims`.
use first_helios.Base.{
  ℕ, &&-true, ◌||◌, ◌&&◌, not, ◌==◌, ◌>>=◌, true, false, Bool, if◌then◌else◌, ◌∙◌, >>=-some, arith,
  refl, In-append, ℕ, Bool, true, false, Option, none, some, [], ◌==◌, ◌&&◌, ◌>>=◌, not, arith, ◌≡◌,
  refl, sym, ap, ◌∙◌, In, In-append, inl, inr, >>=-some, if◌then◌else◌,
}
use first_helios.Menu.Model.{MenuPage, PriceObservation, is_suppress, is_inherit}
use first_helios.Menu.Graph.{get_page}
use first_helios.Menu.Paths.{TargetRef, NativePath, target_node}
use first_helios.Menu.Session.{Session, SelectionRequest}
use first_helios.Menu.Content.{ContentResult, ContentScope, organization, local}
use first_helios.Menu.Organization.{
  head_claim, claims_on, head_claims, strip_base, claim_of, head, pinned, head_claimable,
  strip_base, head_claims, claims_of, organization_claims, Origin, org_claim, Origin, pinned, head,
  OrganizationClaim, org_claim, claim_of, head_claimable, to_list, strip_base, head_claims,
  claims_of, organization_claims,
}

In-to_list : (c : OrganizationClaim) (o : Option OrganizationClaim) → In c (to_list o) → o ≡ some c
unfolding to_list
In-to_list c none m = absurd m
In-to_list c (some d) (inl p) = ap some (sym p)
In-to_list c (some d) (inr m) = absurd m

priced_claim :
    (session : Session) (page : MenuPage) (origin : Origin) (b : Bool) (o : Option PriceObservation)
    (c : OrganizationClaim)
    → (if b then none else (o >>= λ price. some (claim_of session page origin price))) ≡ some c
    → (c.subject_id ≡ page.subject_id) × (c.page_id ≡ page.id)
unfolding claim_of
priced_claim session page origin true o c h = cc
priced_claim session page origin false none c h = cc
priced_claim session page origin false (some price) c h =
    (ap subject_of (sym h), ap page_of (sym h))
  where
    subject_of : Option OrganizationClaim → ℕ
    subject_of none = 0
    subject_of (some d) = d.subject_id

    page_of : Option OrganizationClaim → ℕ
    page_of none = 0
    page_of (some d) = d.page_id

-- The claim that a page makes is its own.
org_claim-page :
    (session : Session) (request : SelectionRequest) (page : MenuPage) (target : TargetRef)
    (origin : Origin) (c : OrganizationClaim)
    → org_claim session request page target origin ≡ some c
    → (c.subject_id ≡ page.subject_id) × (c.page_id ≡ page.id)
unfolding org_claim
org_claim-page session request page target origin c h =
    let (n, en, h1) = >>=-some (target_node session.tables page target) _ h in
    priced_claim session page origin (is_suppress n.effect || is_inherit n.effect) _ c h1

claimable-subject :
    (session : Session) (request : SelectionRequest) (page p : MenuPage)
    → head_claimable session request page p ≡ true
    → p.subject_id ≡ page.subject_id
unfolding head_claimable
claimable-subject session request page p h = ground arith

head_claim-subject :
    (session : Session) (request : SelectionRequest) (page : MenuPage) (target : TargetRef)
    (o : Option MenuPage) (c : OrganizationClaim)
    → In c (head_claim session request page target o)
    → c.subject_id ≡ page.subject_id
unfolding head_claim
head_claim-subject session request page target none c m = absurd m
head_claim-subject session request page target (some p) c m =
    tested (not (p.id == page.id) && head_claimable session request page p) refl m
  where
    tested :
        (b : Bool)
        → (not (p.id == page.id) && head_claimable session request page p) ≡ b
        → In c (if b then to_list (org_claim session request p target head) else [])
        → c.subject_id ≡ page.subject_id
    tested false e i = absurd i
    tested true e i =
        (org_claim-page session request p target head c
          (In-to_list c (org_claim session request p target head) i)).0
        ∙ claimable-subject session request page p
            (&&-true (not (p.id == page.id)) (head_claimable session request page p) e).1

claims_on-subject :
    (session : Session) (request : SelectionRequest) (o : Option MenuPage)
    (path : Option NativePath) (c : OrganizationClaim)
    → In c (claims_on session request o path)
    → (p : MenuPage) × (o ≡ some p) × (c.subject_id ≡ p.subject_id)
unfolding claims_on head_claims
claims_on-subject session request none path c m = absurd m
claims_on-subject session request (some p) none c m = absurd m
claims_on-subject session request (some p) (some path) c m = (
  p,
  refl,
  elim (In-append c (to_list (org_claim session request p target pinned)) _ m) [
    | inl j ↦
        (org_claim-page session request p target pinned c
          (In-to_list c (org_claim session request p target pinned) j)).0
    | inr j ↦ head_claim-subject session request p target _ c j
  ],
)
  where
    target : TargetRef
    target = record { kind = request.target.kind; native_path = path }

-- A shared claim is shown only beside content that an Organization page asserts, and its Subject is the Subject of that content's page, whether the page itself or its stream's head makes the claim.
pub organization_claims-subject :
    (session : Session) (request : SelectionRequest) (content : ContentResult)
    (c : OrganizationClaim)
    → In c (organization_claims session request (some content))
    → (content.scope ≡ organization)
      × ((p : MenuPage) × (get_page session.tables content.page_id ≡ some p)
          × (c.subject_id ≡ p.subject_id))
unfolding organization_claims
organization_claims-subject session request content c m = scoped content.scope refl m
  where
    scoped :
        (s : ContentScope)
        → content.scope ≡ s
        → In c (elim s [ local ↦ [] | organization ↦ claims_of session request content ])
        → (content.scope ≡ organization)
          × ((p : MenuPage) × (get_page session.tables content.page_id ≡ some p)
              × (c.subject_id ≡ p.subject_id))
    scoped local e i = absurd i
    scoped organization e i = (
      e,
      claims_on-subject session request (get_page session.tables content.page_id)
          (strip_base content.page_id request.target.native_path) c (unfold claims_of in i),
    )
