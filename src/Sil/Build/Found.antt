-- ===== src/Sil/Build/Found.antt =====
-- Looking a function up in a module to which one was added: toolchain/tiny_sil/module.h.
use tinyswift.Prelude.{
  List, [], ◌∷◌, ◌++◌, Option, none, some, String, if◌then◌else◌, str_eq, ◌≡◌, refl, Bool-cases,
  inl, inr,
}
use tinyswift.Sil.{Function, Module}
use tinyswift.Sil.Build.{new_function, create_function, find_in, find_function}

-- What the search continues with when it found nothing yet.
abbrev pub or_else : Option Function → Option Function → Option Function
or_else none other = other
or_else (some fn) other = some fn

find_in-append :
    (fns more : List Function) (name : String)
    → find_in (fns ++ more) name ≡ or_else (find_in fns name) (find_in more name)
unfolding find_in
find_in-append [] more name = refl
find_in-append (fn ∷ rest) more name = elim (Bool-cases (str_eq fn.name name)) [
  | inl e ↦ rw e refl
  | inr e ↦ rw e (find_in-append rest more name)
]

-- After a function was created, every name finds what it found before; a name that found nothing
-- finds the new function when it is its name, and nothing otherwise.
pub find_function-create_function :
    (m : Module) (func_name name : String)
    → find_function (create_function m func_name) name
      ≡ or_else
          (find_function m name)
          (if str_eq func_name name then some (new_function func_name) else none)
unfolding find_function create_function find_in
find_function-create_function m func_name name =
    find_in-append m.functions (new_function func_name ∷ []) name
