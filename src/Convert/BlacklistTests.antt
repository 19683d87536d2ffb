-- ===== src/Convert/BlacklistTests.antt =====
-- The tables written after a trace with one allocation.
use lockdoc_tools.Common.{ℕ, ◌≡◌, refl, none, some, List, [], ◌∷◌, Text, codes, false, true}
use lockdoc_tools.Hypothesizer.Input.{split}
use lockdoc_tools.Convert.Accesses.{write_mem_accesses}
use lockdoc_tools.Convert.Driver.{Config, Subclass}
use lockdoc_tools.Convert.Allocs.{
  find_alloc, find_subclass, names_of, split_subclass, subclass_index, type_index, enter_alloc,
  add_alloc, insert_alloc, handle_alloc,
}
use lockdoc_tools.Convert.Events.{
  Event, alloc, Program, Ending, running, stopped, failure, bad_subclass, run, step, is_skipped,
  write_pending, dispatch_event, resume,
}
use lockdoc_tools.Convert.Run.{new_program}
use lockdoc_tools.Common.SortedMap.{find_key}
use lockdoc_tools.Convert.Blacklists.{
  Tables, write_tables, subclass_rows, type2id, push_id, find_ids, subclass2id, blacklist_ids,
  member_id, fn_rows, fn_columns, fn_lines, member_rows, member_columns, member_lines,
}
use lockdoc_tools.Convert.Blacklists.Types.{ids_with_type, found_with, type2id-collects}
use lockdoc_tools.Convert.Blacklists.Rows.{Referential, write_tables-Referential}

abbrev config : Config
config = record {
  ctx_tracing = false;
  include_all_locks = false;
  process_seqlock = false;
  pseudo_alloc_id = 0;
  kernel_base_dir = [];
  data_sections = [];
  global_lock_var = λ a. none;
  types = codes "cdev" ∷ codes "inode" ∷ [];
}

abbrev trace : List Event
trace =
    alloc (record { ts = 1; base_address = 4096; size = 64; type_str = codes "inode:ext4" })
    ∷ alloc (record { ts = 2; base_address = 8192; size = 64; type_str = codes "inode:proc" })
    ∷ []

abbrev or_else : Program → Ending → Program
or_else d (running s) = s
or_else d (stopped e) = d
or_else d failure = d
or_else d bad_subclass = d

abbrev last_program : Program
last_program = or_else (new_program config) (run config trace (new_program config))

abbrev names : List (Text × ℕ)
names = (codes "i_lock", 4) ∷ (codes "i_size", 2) ∷ []

abbrev fn_lines_read : List Text
fn_lines_read =
    codes "datatype;datatype_member;fn;sequence"
    ∷ codes "inode;\\N;ilookup;\\N"
    ∷ codes "unknown;\\N;f;\\N"
    ∷ codes "inode:proc;i_size;proc_read;3"
    ∷ codes "\\N;\\N;atomic64_add"
    ∷ []

abbrev member_lines_read : List Text
member_lines_read = codes "datatype;datatype_member" ∷ codes "inode;i_lock" ∷ []

run_ends : run config trace (new_program config) ≡ running last_program
unfolding run step is_skipped write_pending write_mem_accesses dispatch_event resume handle_alloc
    find_alloc find_subclass names_of split_subclass subclass_index type_index enter_alloc add_alloc
    insert_alloc
run_ends = refl

abbrev ext4 : Subclass
ext4 = record { id = 1; name = codes "ext4"; data_type_idx = 1; real_subclass = true }

abbrev proc : Subclass
proc = record { id = 2; name = codes "proc"; data_type_idx = 1; real_subclass = true }

-- A data type stands for all its subclasses; lines of three columns or with unknown names are ignored.
two_blacklists :
    write_tables config.types (ext4 ∷ proc ∷ []) names fn_lines_read member_lines_read
    ≡ some (record {
      subclasses_o_file =
          record { id = 1; data_type_id = some 2; name = some (codes "ext4") }
          ∷ record { id = 2; data_type_id = some 2; name = some (codes "proc") }
          ∷ [];
      fn_blacklist_o_file =
          record {
            id = 1;
            subclass_id = some 1;
            member_name_id = none;
            fn = codes "ilookup";
            sequence = codes "\\N";
          }
          ∷ record {
            id = 2;
            subclass_id = some 2;
            member_name_id = none;
            fn = codes "ilookup";
            sequence = codes "\\N";
          }
          ∷ record {
            id = 3;
            subclass_id = some 2;
            member_name_id = some 2;
            fn = codes "proc_read";
            sequence = codes "3";
          }
          ∷ [];
      member_blacklist_o_file = (some 1, 4) ∷ (some 2, 4) ∷ [];
    })
unfolding write_tables subclass_rows type2id push_id find_ids subclass2id blacklist_ids member_id
    fn_rows fn_columns fn_lines member_rows member_columns member_lines split find_key names_of
    split_subclass
two_blacklists = refl

write_tables-Referential_example :
    (t : Tables) × ((write_tables config.types last_program.converter.subclasses names fn_lines_read
          member_lines_read
        ≡ some t)
      × Referential last_program.converter.subclasses names t)
write_tables-Referential_example =
    write_tables-Referential config trace last_program names fn_lines_read member_lines_read
      run_ends

type_ids : type2id config.types (ext4 ∷ proc ∷ []) [] ≡ some ((codes "inode", 1 ∷ 2 ∷ []) ∷ [])
unfolding type2id push_id
type_ids = refl

type2id-collects_example :
    find_ids (codes "inode") ((codes "inode", 1 ∷ 2 ∷ []) ∷ [])
    ≡ found_with none (ids_with_type config.types (codes "inode") (ext4 ∷ proc ∷ []))
type2id-collects_example =
    type2id-collects config.types (ext4 ∷ proc ∷ []) ((codes "inode", 1 ∷ 2 ∷ []) ∷ []) type_ids
      (codes "inode")
