-- ===== src/Bundles/NodeType.antt =====
-- `NodeType` (dtn/messages.py).
use Prim.Native.Nat.{ℕ}

abbrev pub broker : ℕ
broker = 1

abbrev pub executor : ℕ
executor = 2

abbrev pub datastore : ℕ
datastore = 3

abbrev pub client : ℕ
client = 4
