-- ===== src/Heap/Again.antt =====
-- After a collection the program can get at what it could get at before.
use lpc_interpreter.Prelude.{List, [], Option, none, some}
use lpc_interpreter.Value.Word.{Value}
use lpc_interpreter.Heap.Pools.{LpcClosure, ClassInstance, LpcObject, Heap}
use lpc_interpreter.Heap.Traced.{Traced}
use lpc_interpreter.Heap.Reachable.{Reachable}

fields_of : Option ClassInstance → List Value
fields_of none = []
fields_of (some c) = c.fields

globals_of : Option LpcObject → List Value
globals_of none = []
globals_of (some o) = o.globals

upvalues_of : Option LpcClosure → List Value
upvalues_of none = []
upvalues_of (some c) = c.upvalues
