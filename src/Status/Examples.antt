-- ===== src/Status/Examples.antt =====
-- A stream for the document 1 of the tenant 9, while another document and another tenant have events too.
use knowledgebase.Prelude.{◌≡◌, ◌+◌, Option, some, List, [], ◌∷◌, ◌++◌, arith}
use knowledgebase.Prelude.Text.{Text, same_text}
use knowledgebase.Prelude.Table.{select}
use knowledgebase.Models.{Uuid}
use knowledgebase.Models.Samples.{one_document}
use knowledgebase.Models.Status.{StageName, StageStatus}
use knowledgebase.Pipeline.{Event, System}
use knowledgebase.Status.{Action, published, round, connect, disconnect, run_stream}
use knowledgebase.Status.Stream.{is_asked, updates, waiting, own_events, IsKeptUp, stream_complete}

abbrev parsed : Uuid → Event
parsed id = record {
  document_id = id;
  stage = StageName.parse;
  status = StageStatus.done;
  detail = [];
  ts = 5;
}

abbrev spell : Uuid → Text
spell id = (id + 100) ∷ []

abbrev asked : Option (Text × Uuid)
asked = some (101 ∷ [], 1)

abbrev sys : System
sys = record { db = one_document; bus = record { tenant_id = 9; queue = 1; items = [] } ∷ [] }

abbrev actions : List (Action spell 9 2 asked)
actions =
    published 9 (parsed 1)
    ∷ published 8 (parsed 1)
    ∷ published 9 (parsed 3)
    ∷ round
    ∷ round
    ∷ round
    ∷ []

kept : IsKeptUp spell 9 2 asked 0 actions
unfolding IsKeptUp
kept = (omega arith, (omega arith, tt))

stream_complete_example :
    (updates spell 9 2 asked
          (run_stream spell 9 2 asked actions (connect spell 9 2 asked sys).1.bus).0
        ++ select (is_asked spell 9 2 asked) (
            waiting spell 9 2 asked
              (run_stream spell 9 2 asked actions (connect spell 9 2 asked sys).1.bus).1)
      ≡ parsed 1 ∷ [])
    × (disconnect spell 9 2 asked (connect spell 9 2 asked sys).1.bus ≡ sys.bus)
unfolding own_events select same_text
stream_complete_example = stream_complete spell 9 2 asked actions sys ((λ e. omega arith), tt) kept
