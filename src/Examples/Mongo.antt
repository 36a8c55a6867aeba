-- ===== src/Examples/Mongo.antt =====
-- The theorem on filters (src/mongo/mongo_readref.h).
use yan.Prelude.{some, []}
use yan.Prelude.Text.{bytes}
use yan.Ref.Object.{Object}
use yan.Examples.Statements.{conds_of}

-- `age >= 18 OR nick == "bo"`
abbrev asked : Object
asked = record { seqset = []; conds = some (conds_of 18 (bytes "bo")); hashv = []; members = [] }
