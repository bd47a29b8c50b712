-- ===== src/Forge/Serve/Lives.antt =====
-- Every connection of a serving agent of spoe_forge/spoe_forge.py, beside the life of a connection alone.
use spoe_forge.Prelude.{◌≡◌, refl, sym, ap, ◌∙◌, true, List, [], ◌∷◌, All, All-append, All-split}
use spoe_forge.Prelude.Text.{Text}
use spoe_forge.Spop.Result.{ok}
use spoe_forge.Spop.Frame.Codec.{Reader}
use spoe_forge.Server.Connection.{Connection, Writer}
use spoe_forge.Server.Handler.{handle_handshake}
use spoe_forge.Server.Loop.{Pool, Reaches, starts, goes_on}
use spoe_forge.Server.Core.{Failure, closing, refused, unshaken, served, settle}
use spoe_forge.Forge.{SpoeForge, answers_of, handler, Handles}
use spoe_forge.Forge.Serve.{
  Stage, greeting, looping, over, Advances, shakes, runs, refuses, fails, winds, Serving, listens,
  accepts, advances,
}

-- A stage of a connection that is served alone.
pub record IsLooping (agent : SpoeForge) (p : Pool) : Type 0 where
  pub reader : Reader
  pub writer : Writer
  pub shaken : Connection
  pub agreed : handle_handshake (handler agent reader writer) ≡ (ok true, shaken)
  pub reached : Reaches (answers_of agent) shaken p

pub record IsOver (agent : SpoeForge) (raised : List Failure) (d' : Connection) : Type 0 where
  pub reader : Reader
  pub writer : Writer
  pub failures : List Failure
  pub end : Connection
  pub too_big_text : Text
  pub protocol_text : Text
  pub handled : Handles agent reader writer failures end
  pub settled : settle too_big_text protocol_text failures end ≡ (raised, d')

abbrev pub IsAlone : SpoeForge → Stage → Type 0
IsAlone agent (greeting c) =
    (reader : Reader) × (writer : Writer) × (c ≡ handler agent reader writer)
IsAlone agent (looping p) = IsLooping agent p
IsAlone agent (over raised d) = IsOver agent raised d

advances-IsAlone :
    (agent : SpoeForge) (s s' : Stage) → Advances agent s s' → IsAlone agent s → IsAlone agent s'
advances-IsAlone agent _ _ (shakes c c' e) (reader, writer, same) = record {
  reader = reader;
  writer = writer;
  shaken = c';
  agreed = ap handle_handshake (sym same) ∙ e;
  reached = starts;
}
advances-IsAlone agent _ _ (runs p q s) l = record {
  reader = l.reader;
  writer = l.writer;
  shaken = l.shaken;
  agreed = l.agreed;
  reached = goes_on p q l.reached s;
}
advances-IsAlone agent _ _ (refuses c d d' t u raised e settled) (reader, writer, same) = record {
  reader = reader;
  writer = writer;
  failures = closing ∷ [];
  end = d;
  too_big_text = t;
  protocol_text = u;
  handled = refused d (ap handle_handshake (sym same) ∙ e);
  settled = settled;
}
advances-IsAlone agent _ _ (fails c d d' x t u raised e settled) (reader, writer, same) = record {
  reader = reader;
  writer = writer;
  failures = _;
  end = d;
  too_big_text = t;
  protocol_text = u;
  handled = unshaken d x (ap handle_handshake (sym same) ∙ e);
  settled = settled;
}
advances-IsAlone agent _ _ (winds p f fs d d' t u raised w settled) l = record {
  reader = l.reader;
  writer = l.writer;
  failures = f ∷ fs;
  end = d;
  too_big_text = t;
  protocol_text = u;
  handled = served l.shaken d p f fs l.agreed l.reached w;
  settled = settled;
}

-- However many connections an agent serves, and however their steps interleave, each of them is at a
-- stage of a life that it could have alone: before the handshake, in a pool that its loop reaches, or
-- settled after an end of its task group.
pub serves-IsAlone :
    (agent : SpoeForge) (stages : List Stage) → Serving agent stages → All (IsAlone agent) stages
serves-IsAlone agent _ listens = tt
serves-IsAlone agent _ (accepts stages reader writer s) =
    All-append (IsAlone agent) stages (greeting (handler agent reader writer) ∷ [])
      (serves-IsAlone agent stages s) ((reader, writer, refl), tt)
serves-IsAlone agent _ (advances front back s s' r a) =
    let (before, (this, after)) =
      All-split (IsAlone agent) front (s ∷ back) (serves-IsAlone agent _ r) in
    All-append (IsAlone agent) front (s' ∷ back) before (advances-IsAlone agent s s' a this, after)
