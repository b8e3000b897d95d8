-- ===== src/Storage/Tests.antt =====
-- The theorems on the media store at the file system in memory.
use smart_core_assistant_v.Prelude.{◌≡◌, refl, Bool, true, none, List, [], ◌∷◌, inr, txt}
use smart_core_assistant_v.Storage.Files.{plain}
use smart_core_assistant_v.Storage.Client.{get, put, delete}
use smart_core_assistant_v.Storage.Refinement.{
  Op, put_op, delete_op, run, Shows, replay, run_refines, tenants_isolated,
}
use smart_core_assistant_v.Storage.Memory.{disk, disk_laws, no_files, show, names, show-apart_true}

abbrev calls : List (Op Bool)
calls =
    put_op true (txt "a.png") (1 ∷ 2 ∷ [])
    ∷ put_op Bool.false (txt "a.png") (3 ∷ [])
    ∷ delete_op true (txt "a.png")
    ∷ []

abbrev left : disk.Fs
left = (run disk [] show calls no_files).1

succeeds : run disk [] show calls no_files ≡ (inr tt, left)
unfolding run put delete
succeeds = refl

Shows-nothing : Shows disk [] show no_files (λ u g. none)
unfolding get
Shows-nothing u g pg = refl

plain_name : plain (txt "a.png") ≡ true
unfolding plain
plain_name = refl

run_refines_example : Shows disk [] show left (replay disk [] show calls (λ u g. none))
run_refines_example =
    run_refines disk [] show disk_laws names calls no_files left (λ u g. none)
      (plain_name, (plain_name, (plain_name, tt))) succeeds Shows-nothing

tenants_isolated_example :
    get disk [] show Bool.false
      (txt "a.png")
      (run disk [] show (put_op true (txt "a.png") (1 ∷ []) ∷ []) left).1
    ≡ get disk [] show Bool.false (txt "a.png") left
tenants_isolated_example =
    tenants_isolated disk [] show disk_laws names (put_op true (txt "a.png") (1 ∷ []) ∷ [])
      Bool.false (txt "a.png") left ((show-apart_true, plain_name), tt) plain_name
