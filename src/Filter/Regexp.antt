-- ===== src/Filter/Regexp.antt =====
-- The package regexp, as far as filter/ uses it.
use cosmos_indexer.Prelude.{Bool, String, Option}

pub record Regexp : Type 1 where
  pub Expr : Type 0
  pub compile : String → Option Expr
  pub match_string : Expr → String → Bool
