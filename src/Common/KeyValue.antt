-- ===== src/Common/KeyValue.antt =====
-- The interface of a store that holds a value under each key: Redis' GET, SET and DEL, and a
-- database table read and written by primary key. Neither is code of this repository, so a model
-- that uses one takes it as a parameter, with the laws that their documentation states: a write
-- or a removal is seen by later reads of that key, and by no read of another key.
use Prim.Native.String.{String}
use mathlib.Core.Path.{◌≡◌, refl}
use mathlib.Core.Option.{Option, none, some}
use text.Mathlib.Text.{◌==◌}
use cloud_mesh.Common.Tests.{if◌then◌else◌}

pub record KeyValue (V : Type 0) : Type 1 where
  pub Store : Type 0
  pub get : Store → String → Option V
  pub put : Store → String → V → Store
  pub del : Store → String → Store
  pub get-put :
      (s : Store) (k j : String) (v : V) → get (put s k v) j ≡ (if k == j then some v else get s j)
  pub get-del : (s : Store) (k j : String) → get (del s k) j ≡ (if k == j then none else get s j)

-- A store that meets the laws: a function from keys.
abbrev pub memory : (V : Type 0) → KeyValue V
memory V = record {
  Store = String → Option V;
  get = λ s k. s k;
  put = λ s k v j. if k == j then some v else s j;
  del = λ s k j. if k == j then none else s j;
  get-put = λ s k j v. refl;
  get-del = λ s k j. refl;
}

abbrev pub blank : {V : Type 0} → String → Option V
blank k = none
