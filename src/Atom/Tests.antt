-- ===== src/Atom/Tests.antt =====
-- Runs.
use gce.Prelude.{true, arith, ◌≡◌, refl, ◌∷◌, [], some}
use gce.Atom.RoundTrip.{all_small, atom_name-atom}
use gce.Atom.{atom, encode_from, encoding_table, decoding_table, atom_name, decode_into}

atom_abc : atom (97 ∷ 98 ∷ 67 ∷ []) ≡ 843
unfolding atom encode_from encoding_table
atom_abc = refl

name_abc : atom_name 843 ≡ some (97 ∷ 98 ∷ 99 ∷ [])
unfolding atom_name decode_into decoding_table
name_abc = refl

abc_small : all_small (97 ∷ 98 ∷ 99 ∷ []) ≡ true
abc_small = refl

atom_name-atom_example : atom_name (atom (97 ∷ 98 ∷ 99 ∷ [])) ≡ some (97 ∷ 98 ∷ 99 ∷ [])
atom_name-atom_example = atom_name-atom (97 ∷ 98 ∷ 99 ∷ []) abc_small (omega arith)
