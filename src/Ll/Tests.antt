-- ===== src/Ll/Tests.antt =====
-- The theorems about ll.c at a list of two nodes.
use cs.Base.{◌≡◌, refl, true, some, [], ◌∷◌, ◌++◌, arith}
use cs.Ll.{Kernel, Module, add_node, delete_node, my_proc_read, message}
use cs.Ll.Nodes.{Rewound, delete_node-add_node, my_proc_read-message}

abbrev kernel : Kernel
kernel = record { list_add_tail = λ x xs. xs ++ x ∷ [] }

abbrev loaded : Module
loaded = record { my_list = 3 ∷ 4 ∷ []; proc = some message; len = 15; temp = 15; log = [] }

delete_node-add_node_example :
    ((delete_node 5 (add_node kernel true 5 loaded).1).0 ≡ 0)
    × ((delete_node 5 (add_node kernel true 5 loaded).1).1.my_list ≡ 3 ∷ 4 ∷ [])
delete_node-add_node_example =
    delete_node-add_node kernel (record { list_add_tail_lem = λ x xs. refl }) 5 loaded refl

my_proc_read-message_example :
    (s1 s2 : Module) × (my_proc_read 20 loaded ≡ (15, message, s1))
    × (my_proc_read 20 s1 ≡ (0, [], s2))
    × Rewound message s2
my_proc_read-message_example =
    my_proc_read-message message 20 loaded (record { proc = refl; len = refl; temp = refl })
      (omega arith) (omega arith)
