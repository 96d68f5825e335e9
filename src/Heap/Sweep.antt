-- ===== src/Heap/Sweep.antt =====
-- `Sweep` and `CollectGarbage` of vm/src/runtime/vm_gc.cpp.
use lpc_interpreter.Prelude.{true, List, [], Option, none, some}
use lpc_interpreter.Value.Boxes.{sweep_boxes}
use lpc_interpreter.Optimizer.Base.{◌>>=◌}
use lpc_interpreter.Heap.Pools.{LpcClosure, ClassInstance, LpcObject, Heap, Kind, size}
use lpc_interpreter.Heap.Mark.{Marks, Roots, mark_from_roots}
use lpc_interpreter.Heap.Slots.{sweep_slots}
use lpc_interpreter.Heap.Strings.{sweep_strings}

-- `LpcArray::Clear` and `Mapping::Clear`.
unfoldable pub clear_list : {A : Type 0} → List A → List A
clear_list xs = []

-- What is reset of a class instance: its names, its version, its fields and its template.
unfoldable pub clear_class : ClassInstance → ClassInstance
clear_class c = record {
  fields = [];
  template_id = 0xffff;
  module_version_id = 0;
  module_name = [];
}

-- `LpcClosure::Clear`.
unfoldable pub clear_closure : LpcClosure → LpcClosure
clear_closure c = record { func_id = 0; module_version_id = 0; upvalues = [] }

-- The version of the module stays.
unfoldable pub clear_object : LpcObject → LpcObject
clear_object o = record o { globals = []; module_name = []; blueprint = none; destroyed = true }

-- `Sweep`: a loop over each pool.
unfoldable pub sweep_heap : Marks → Heap → Heap
sweep_heap m h = record h {
  arrays = sweep_slots clear_list (m Kind.arrays) (size h Kind.arrays) 0 h.arrays;
  mappings = sweep_slots clear_list (m Kind.mappings) (size h Kind.mappings) 0 h.mappings;
  classes = sweep_slots clear_class (m Kind.classes) (size h Kind.classes) 0 h.classes;
  strings = sweep_strings (m Kind.strings) (size h Kind.strings) 0 h.strings;
  closures = sweep_slots clear_closure (m Kind.closures) (size h Kind.closures) 0 h.closures;
  objects = sweep_slots clear_object (m Kind.objects) (size h Kind.objects) 0 h.objects;
  boxed_ints = sweep_boxes (m Kind.boxed_ints) (size h Kind.boxed_ints) 0 h.boxed_ints;
}

-- `CollectGarbage`.
unfoldable pub collect_garbage : Heap → Roots → Option Heap
collect_garbage h r = do m ← mark_from_roots h r; some (record (sweep_heap m h) { alloc_count = 0 })
