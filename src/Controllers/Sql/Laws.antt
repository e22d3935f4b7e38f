-- ===== src/Controllers/Sql/Laws.antt =====
-- What the handler of an SQL query answers.
use zygote.Common.{true, Option, none, [], Bytes, codes, ℤ, Result, ◌≡◌, ap, ◌∙◌}
use zygote.Strings.{bytes_eq, trim_space}
use zygote.Errors.{Err}
use zygote.Tables.{Handle, MultiDbConnector}
use zygote.Http.{Exchange, send_error, bind_body, bound}
use zygote.Controllers.Sql.{RowSet, Rows, with_query, handle_query}

module _ {W : Type 0} (x : Exchange W Bytes Rows)
    (query : Handle → Bytes → W → W × Result Err (Option RowSet)) (wait : ℤ → W → W × Option Err)
    (m : MultiDbConnector) (w u : W) (body : Bytes) (read : x.bind w ≡ ((u, body), none)) where
  read_query : handle_query x query wait m w ≡ with_query x query wait m ((u, body), none)
  unfolding handle_query bind_body bound
  read_query = ap (λ b. with_query x query wait m (bound x b)) read

  -- A query of white space only is refused with status 400, and no query is run.
  pub handle_query-empty :
      bytes_eq (trim_space body) [] ≡ true
      → handle_query x query wait m w ≡ send_error x (codes "Query cannot be empty") u
  unfolding with_query
  handle_query-empty empty = read_query ∙ rw empty
