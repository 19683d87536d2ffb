-- ===== src/Convert/MemberTests.antt =====
-- addMemberName on concrete names.
use lockdoc_tools.Common.{[], ◌∷◌, codes, ◌≡◌, refl}
use lockdoc_tools.Common.SortedMap.{find_key, emplace_key}
use lockdoc_tools.Convert.Members.{
  MemberNames, Numbered, Named, no_names, add_member_name, name_rows, no_names-Numbered,
  add_member_name-Named,
}

abbrev one_name : MemberNames
one_name = (add_member_name (codes "i_lock") no_names).1

one_name-Numbered : Numbered one_name
one_name-Numbered = (add_member_name-Named (codes "i_lock") no_names no_names-Numbered).numbered

-- The rows stand in the order of the names, not of the ids.
two_rows :
    name_rows (add_member_name (codes "i_data") one_name).1
    ≡ (2, codes "i_data") ∷ (1, codes "i_lock") ∷ []
unfolding add_member_name find_key emplace_key
two_rows = refl

known_name : add_member_name (codes "i_lock") one_name ≡ (1, one_name)
unfolding add_member_name find_key emplace_key
known_name = refl

add_member_name-Named_example :
    Named (codes "i_data") one_name (add_member_name (codes "i_data") one_name)
add_member_name-Named_example = add_member_name-Named (codes "i_data") one_name one_name-Numbered
