-- ===== src/Tests/ClientTests.antt =====
-- A client after a commit that inserts one record and deletes another.
use rodengine.Common.{◌≡◌, refl, inr, List, [], ◌∷◌, All, arith}
use rodengine.Common.HashMap
use rodengine.Storage.Delta
use rodengine.Storage.Table
use rodengine.Storage.Buffer
use rodengine.Transaction.WriteQueue.{WriteOpWithoutResponse, insert, delete}
use rodengine.Database.{handle_get}
use rodengine.Database.Commit.{deltas, old_data}
use rodengine.Client.Db.{ClientDb, apply_delta, stored}
use rodengine.Client.Db.Mirror.{Mirrors, all_written, apply_delta-written}
use rodengine.Tests.BatchTests.{components, state}

abbrev client : ClientDb
client = record { tables = (4, (7, 1 ∷ 2 ∷ []) ∷ []) ∷ []; entities = []; version = 3 }

abbrev ops : List WriteOpWithoutResponse
ops = insert 4 2 (8 ∷ 9 ∷ []) ∷ delete 4 7 ∷ []

client-Mirrors : All (Mirrors components state client) ops
unfolding old_data handle_get HashMap.get stored Table.get Buffer.read Table.decode Table.encode
client-Mirrors = (refl, (refl, tt))

apply_delta-written_example :
    stored (apply_delta client (deltas components state ops (Delta.new 4 100))) 4 7
    ≡ all_written ops 4 7 (stored client 4 7)
apply_delta-written_example =
    apply_delta-written components state client ops 4 100 4 7 client-Mirrors
      ((inr (omega arith), tt), (tt, tt))
