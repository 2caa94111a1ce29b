-- ===== src/Menu/Select.antt =====
-- The entry point, `select_price`: current mode without a knowledge cutoff, history mode with one.
pub mod Laws
use first_helios.Base.{
  ℕ, Bool, true, false, Option, none, some, List, [], ◌==◌, ◌&&◌, arith, ◌≡◌, not, is_none,
  if◌then◌else◌,
}
use first_helios.Menu.Heads.{Heads, stream_heads, subject_heads, all_heads_withdrawn}
use first_helios.Menu.Session.{Session, SelectionRequest, LocalState, current_gate}
use first_helios.Menu.Content.{ContentResult, select_content}
use first_helios.Menu.Price.{PriceResult, no_price, select_local_price}
use first_helios.Menu.Organization.{OrganizationClaim, organization_claims}

pub data Mode : Type 0 where
  current history : Mode

pub record Selection : Type 0 where
  pub mode : Mode
  pub content : Option ContentResult
  pub local_price : PriceResult
  pub organization : List OrganizationClaim

is_absent : LocalState → Bool
is_absent LocalState.absent = true
is_absent _ = false

-- the price after the test on tombstones
unfoldable pub or_withdrawn :
    SelectionRequest → Heads → Option ContentResult → PriceResult → PriceResult
unfolding is_absent
or_withdrawn request heads content price =
    if is_none content && is_absent price.state && all_heads_withdrawn heads
    then no_price LocalState.withdrawn request.subject_id
    else price

-- The part below the gate.
unfoldable pub selection_over : Session → SelectionRequest → Mode → Heads → Selection
selection_over session request mode heads =
    let content = select_content session request heads in
    record {
      mode = mode;
      content = content;
      local_price = or_withdrawn request heads content (select_local_price session request heads);
      organization = organization_claims session request content;
    }

unfoldable pub withheld : SelectionRequest → LocalState → Selection
withheld request reason = record {
  mode = current;
  content = none;
  local_price = no_price reason request.subject_id;
  organization = [];
}

-- `if heads: gate = _current_gate(...)`
unfoldable pub gate : Session → SelectionRequest → Heads → Option LocalState
gate session request [] = none
gate session request heads = current_gate session heads request.effective_instant

-- `if gate is not None: return ...`, and what stands below it
unfoldable pub gated : Option LocalState → SelectionRequest → Selection → Selection
unfolding withheld
gated (some reason) request below = withheld request reason
gated none request below = below

unfoldable pub current_selection : Session → SelectionRequest → Heads → Selection
unfolding gated
current_selection session request heads =
    gated (gate session request heads) request (selection_over session request current heads)

-- The two modes, by the knowledge cutoff.
unfoldable pub select_mode : Option ℕ → Session → SelectionRequest → Heads → Selection
unfolding current_selection
select_mode (some cutoff) session request heads = selection_over session request history heads
select_mode none session request heads =
    current_selection session request (subject_heads heads request.subject_id)

unfoldable pub select_price : Session → SelectionRequest → Selection
unfolding select_mode
select_price session request =
    select_mode request.knowledge_cutoff session request (
      stream_heads session.tables request.source_record_id request.root_key
        request.knowledge_cutoff)
