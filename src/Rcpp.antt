-- ===== src/Rcpp.antt =====
-- What src/EnvironmentWatcher.cpp calls of R and Rcpp: objects behind handles, their types, attributes
-- and elements, the conversions that may throw, environments, and R code that it runs. Nothing is
-- assumed of the answers. A promise that `Environment::get` forces is taken to have its value already.
use rc2compute.Prelude.{ℕ, Bool, List, Bytes}
use rc2compute.Effects.{Result}
use rc2compute.Numbers.{ℤ}
use rc2compute.World.{World}
use rc2compute.Command.{JsonLib}

-- The values of `SEXPTYPE` that the program tells apart.
pub data SexpType : Type 0 where
  nilsxp closxp envsxp specialsxp builtinsxp lglsxp intsxp realsxp cplxsxp strsxp : SexpType
  vecsxp rawsxp other_sxp : SexpType

pub record Rcpp (w : World) (js : JsonLib) : Type 1 where
  pub Obj : Type 0
  -- `double`, with its comparison, the constants of R, and the JSON number
  pub Real : Type 0
  pub eq_real : Real → Real → Bool
  pub r_nan : Real
  pub r_pos_inf : Real
  pub r_neg_inf : Real
  pub real : Real → JsonLib.J js
  -- the pointer of a handle
  pub address : Obj → ℕ
  pub sexp_type : Obj → SexpType
  pub is_object : Obj → Bool
  pub is_s4 : Obj → Bool
  pub is_factor : Obj → Bool
  pub is_array : Obj → Bool
  pub is_matrix : Obj → Bool
  -- `LENGTH`, and `VECTOR_ELT` within that length
  pub size : Obj → ℕ
  pub elt : Obj → ℕ → Obj
  -- `robj.attr(name)`, which is R's NULL for a missing attribute
  pub attr : Obj → Bytes → Obj
  pub has_attribute : Obj → Bytes → Bool
  pub attribute_names : Obj → List Bytes
  -- the vectors of Rcpp; a conversion that is not possible throws
  pub strings : Obj → Result (List Bytes)
  pub integers : Obj → Result (List ℤ)
  pub logicals : Obj → Result (List ℤ)
  pub reals : Obj → Result (List Real)
  -- `INTEGER` and `LOGICAL`, `REAL`
  pub int_data : Obj → Result (List ℤ)
  pub real_data : Obj → Result (List Real)
  pub coerce_strings : Obj → Obj
  -- `Rcpp::Date` with its year, month and day, and `Rcpp::Datetime`
  pub date : Obj → Result (ℤ × ℤ × ℤ)
  pub timestamp : Obj → Result Real
  -- `ls(false)` and `get` of an environment
  pub ls : World.W w → Obj → List Bytes
  pub get : World.W w → Obj → Bytes → Obj
  -- the execution callback: what it leaves in its result
  pub run : World.W w → Bytes → Obj × World.W w
  -- `rc2.defineFunction` of the package rc2
  pub define_function : World.W w → Obj → Result Obj × World.W w
