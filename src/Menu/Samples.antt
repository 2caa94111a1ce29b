-- ===== src/Menu/Samples.antt =====
-- One small menu in two interpretations, and a shared one, for the tests.
use first_helios.Base.{ℕ, none, some, [], ◌∷◌}
use first_helios.Base.Text.{codes}
use first_helios.Base.Int.{pos}
use first_helios.Identity.Scope.{ResolvedScope, establishment, open_status}
use first_helios.Menu.Model.{
  MenuPage, MenuSection, MenuApplicability, PriceObservation, Tables, Effect, Support, Operation,
  PageState, Channel, PriceState, PriceTarget, jsonld, dom, section,
}
use first_helios.Menu.Context.{Effective}
use first_helios.Menu.Heads.{Heads}
use first_helios.Menu.Graph.{section_node}
use first_helios.Menu.Paths.{PathStep}
use first_helios.Menu.Session.{Session, SelectionRequest}
use first_helios.Menu.Rank.KeyOrder.{end}
use first_helios.Menu.Price.{PriceCandidate}
use first_helios.Menu.Content.{ContentResult, organization}
use first_helios.Menu.Organization.{OrganizationClaim, pinned}

abbrev pub page_one : MenuPage
page_one = record {
  id = 1;
  subject_id = 7;
  source_record_id = 5;
  source_record_version_id = 50;
  resolution_event_id = 60;
  root_key = codes "menu";
  source_kind = jsonld;
  stream_revision = 1;
  observed_at = 100;
  accepted_at = 110;
  confidence = 9000;
  operation = Operation.initial;
  state = PageState.published;
  base_organization_page_id = none;
}

abbrev pub page_two : MenuPage
page_two = record page_one {
  id = 2;
  source_record_version_id = 51;
  stream_revision = 2;
  observed_at = 200;
  accepted_at = 210;
  operation = Operation.observation;
}

abbrev pub page_three : MenuPage
page_three = record page_one {
  id = 3;
  source_record_version_id = 52;
  source_kind = dom;
  observed_at = 300;
  accepted_at = 310;
}

abbrev pub tombstone : MenuPage
tombstone = record page_two {
  id = 4;
  stream_revision = 3;
  accepted_at = 400;
  operation = Operation.withdrawal;
  state = PageState.withdrawn;
}

abbrev pub mains : ℕ → ℕ → MenuSection
mains i p = record {
  columns = record {
    id = i;
    page_id = p;
    key = codes "mains";
    base_id = none;
    applicability_id = none;
    source_native_key = some (codes "mains");
    effect = Effect.replace;
    support_kind = Support.direct;
    name = some (codes "Mains");
  };
  parent_section_id = none;
}

abbrev pub lunch : MenuApplicability
lunch = record {
  id = 1;
  channel = Channel.dine_in;
  service_period = some (codes "lunch");
  valid_from = some 50;
  valid_to = none;
}

abbrev pub summer : MenuApplicability
summer = record {
  id = 2;
  channel = Channel.dine_in;
  service_period = none;
  valid_from = some 80;
  valid_to = some 900;
}

abbrev pub price_at : ℕ → ℕ → ℕ → PriceObservation
price_at i p amount = record {
  id = i;
  page_id = p;
  observation_key = codes "mains:dine_in";
  target = PriceTarget.section_id p;
  applicability_id = 1;
  price_state = PriceState.priced;
  amount_minor = some (pos amount);
  currency_code = codes "EUR";
  confidence = 8000;
}

abbrev pub tables : Tables
tables = record {
  pages = page_one ∷ page_two ∷ page_three ∷ [];
  sections = mains 1 1 ∷ mains 2 2 ∷ mains 3 3 ∷ [];
  items = [];
  variants = [];
  modifiers = [];
  applicabilities = lunch ∷ [];
  prices = price_at 1 2 1250 ∷ price_at 2 3 1300 ∷ [];
  links = [];
}

abbrev pub request : SelectionRequest
request = record {
  subject_id = 7;
  source_record_id = 5;
  root_key = codes "menu";
  target = record { kind = section; native_path = PathStep.node section (codes "mains") ∷ [] };
  context = record {
    channel = Channel.dine_in;
    service_period = some (codes "lunch");
    valid_from = some 50;
    valid_to = none;
  };
  currency_code = codes "EUR";
  effective_instant = 320;
  knowledge_cutoff = none;
  observation_cutoff = none;
}

abbrev pub scope : ResolvedScope
scope = record {
  subject_id = 7;
  kind = establishment;
  source_record_id = 5;
  resolution_event_id = 60;
  organization_subject_id = none;
  place_subject_id = none;
  valid_from = none;
  valid_to = none;
  operating_status = some open_status;
}

abbrev pub session : Session
session = record { tables = tables; check = λ r. some scope; canonical_key = λ v. end }

abbrev pub both : Effective
both = record {
  channel = Channel.dine_in;
  service_period = some (codes "lunch");
  valid_from = some 80;
  valid_to = some 900;
}

abbrev pub heads : Heads
heads = (jsonld, page_two) ∷ (dom, page_three) ∷ []

abbrev pub candidate_two : PriceCandidate
candidate_two = record {
  page = page_two;
  price = price_at 1 2 1250;
  node = section_node (mains 2 2);
}

abbrev pub candidate_three : PriceCandidate
candidate_three = record {
  page = page_three;
  price = price_at 2 3 1300;
  node = section_node (mains 3 3);
}

abbrev pub history : SelectionRequest
history = record request { knowledge_cutoff = some 350 }

abbrev pub shared_page : MenuPage
shared_page = record page_one {
  id = 10;
  subject_id = 20;
  source_record_id = 15;
  source_record_version_id = 53;
}

abbrev pub shared_tables : Tables
shared_tables = record {
  pages = shared_page ∷ [];
  sections = mains 10 10 ∷ [];
  items = [];
  variants = [];
  modifiers = [];
  applicabilities = lunch ∷ [];
  prices = price_at 5 10 1400 ∷ [];
  links = [];
}

abbrev pub shared_session : Session
shared_session = record session { tables = shared_tables }

abbrev pub shared_request : SelectionRequest
shared_request = record request {
  target = record {
    kind = section;
    native_path = PathStep.base 10 ∷ PathStep.node section (codes "mains") ∷ [];
  };
}

abbrev pub shared_content : ContentResult
shared_content = record {
  page_id = 10;
  scope = organization;
  scope_subject_id = 20;
  source_kind = jsonld;
  name = none;
  description = none;
  observed_at = 100;
  evidence_ids = [];
}

abbrev pub shared_claim : OrganizationClaim
shared_claim = record {
  origin = pinned;
  page_id = 10;
  subject_id = 20;
  price_state = PriceState.priced;
  amount_minor = some (pos 1400);
  currency_code = codes "EUR";
  observed_at = 100;
  source_kind = jsonld;
  confidence = 8000;
  evidence_ids = [];
}
