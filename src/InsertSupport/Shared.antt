-- ===== src/InsertSupport/Shared.antt =====
-- From the client to the servers: the shares of an inserted row reach both tables.
use Prim.Native.String.{String}
use mpc_package.Base.{ℕ, suc, ◌%◌, ◌^◌, ◌≤◌, ◌≡◌, refl, sym, ◌∙◌, ap, ap₂, arith, length, map}
use mpc_package.Base.{List, [], ◌∷◌, Option, none, some}
use mpc_package.Word.{IsWord}
use mpc_package.Table.{Table, insert_row}
use mpc_package.Table.Shape.{IsTable, row_at, InsertedRow, insert_row-InsertedRow}
use mpc_package.Shares.{share_bool_batch, reconstruct_bool_batch}
use mpc_package.Shares.Xor.{AreWords, reconstruct_bool_batch-share_bool_batch}
use mpc_package.InsertSupport.{InsertStatement, InsertReply, refused, abandoned, inserted}
use mpc_package.InsertSupport.{client_insert, send_row}
use mpc_package.InsertSupport.Parse.{AllFit, AreLiterals}
use mpc_package.InsertSupport.Row.{client_insert-RowFits, RowFits}

AllFit-AreWords :
    (t : Table) (names : List String) (row : List ℕ) → AllFit t names row → AreWords row
AllFit-AreWords t [] [] h = tt
AllFit-AreWords t [] (v ∷ row) h = absurd h
AllFit-AreWords t (n ∷ names) [] h = absurd h
AllFit-AreWords t (n ∷ names) (v ∷ row) h = (h.0.0, AllFit-AreWords t names row h.1)

AllFit-length :
    (t : Table) (names : List String) (row : List ℕ)
    → AllFit t names row
    → length row ≡ length names
AllFit-length t [] [] h = refl
AllFit-length t [] (v ∷ row) h = absurd h
AllFit-length t (n ∷ names) [] h = absurd h
AllFit-length t (n ∷ names) (v ∷ row) h = ap suc (AllFit-length t names row h.1)

length-share_bool_batch :
    (zs rs : List ℕ) (width : ℕ)
    → length rs ≡ length zs
    → (length (share_bool_batch zs rs width).0 ≡ length zs)
      × (length (share_bool_batch zs rs width).1 ≡ length zs)
unfolding share_bool_batch
length-share_bool_batch [] rs width e = (refl, refl)
length-share_bool_batch (z ∷ zs) [] width e = absurd (omega arith)
length-share_bool_batch (z ∷ zs) (r ∷ rs) width e =
    let both = length-share_bool_batch zs rs width (omega arith) in (ap suc both.0, ap suc both.1)

-- Both insertions succeed, the tables keep their shape, and of the last rows the client makes `row`
-- again, in the low `width` bits.
abbrev pub BothHold : ℕ → ℕ → List ℕ → Option Table → Option Table → Type 0
BothHold n width row (some t0) (some t1) =
    IsTable (suc n) t0
    × IsTable (suc n) t1
    × (reconstruct_bool_batch (row_at n t0.data_cols) (row_at n t1.data_cols) width
        ≡ map (λ z. z % 2 ^ width) row)
BothHold n width row _ _ = ⊥

BothHold-inserted :
    (n width : ℕ) (row r0 r1 : List ℕ) (t0 t1 : Table) (o0 o1 : Option Table)
    → length r0 ≡ length t0.field_names
    → length r1 ≡ length t1.field_names
    → reconstruct_bool_batch r0 r1 width ≡ map (λ z. z % 2 ^ width) row
    → InsertedRow n r0 t0 o0
    → InsertedRow n r1 t1 o1
    → BothHold n width row o0 o1
BothHold-inserted n width row r0 r1 t0 t1 none o1 e0 e1 e i0 i1 = absurd (i0 e0)
BothHold-inserted n width row r0 r1 t0 t1 (some t0') none e0 e1 e i0 i1 = absurd (i1 e1)
BothHold-inserted n width row r0 r1 t0 t1 (some t0') (some t1') e0 e1 e i0 i1 =
    (i0.1, i1.1, ap₂ (λ a b. reconstruct_bool_batch a b width) i0.2 i1.2 ∙ e)

-- What becomes of a statement at servers whose tables are `t0` and `t1`.
abbrev pub Stored : ℕ → Table → List ℕ → Table → Table → InsertReply → Type 0
Stored n t rs t0 t1 (inserted row) =
    BothHold n t.max_width row (insert_row (send_row t row rs).0 t0)
      (insert_row (send_row t row rs).1 t1)
Stored n t rs t0 t1 (refused r) = Unit {0}
Stored n t rs t0 t1 (abandoned r) = Unit {0}

module _ (n : ℕ) (t t0 t1 : Table) (rs : List ℕ) (h0 : IsTable n t0) (h1 : IsTable n t1)
    (names0 : t0.field_names ≡ t.field_names) (names1 : t1.field_names ≡ t.field_names)
    (le : t.max_width ≤ 64) (enough : length rs ≡ length t.field_names) where
  inserted-Stored : (reply : InsertReply) → RowFits t reply → Stored n t rs t0 t1 reply
  unfolding send_row
  inserted-Stored (refused r) h = tt
  inserted-Stored (abandoned r) h = tt
  inserted-Stored (inserted row) h =
      let size = AllFit-length t t.field_names row h in
      let sizes = length-share_bool_batch row rs t.max_width (enough ∙ sym size) in
      BothHold-inserted n t.max_width row _ _ t0 t1 _ _ (sizes.0 ∙ size ∙ ap length (sym names0))
        (sizes.1 ∙ size ∙ ap length (sym names1))
        (reconstruct_bool_batch-share_bool_batch row rs t.max_width le
          (AllFit-AreWords t t.field_names row h) (enough ∙ sym size))
        (insert_row-InsertedRow n _ t0 h0) (insert_row-InsertedRow n _ t1 h1)

  -- On a table of at most 64 bits, and if both servers have it with the same fields and `n` rows,
  -- the client draws a number for each field, and the literals are words, then each server can
  -- insert what the client sends for an accepted statement, the tables keep their shape with one
  -- more row, and from the new rows the client reconstructs its row in the low `max_width` bits.
  pub client_insert-Stored :
      (bucket_num garbage : ℕ) (stmt : InsertStatement)
      → IsWord garbage
      → AreLiterals stmt.values
      → Stored n t rs t0 t1 (client_insert bucket_num garbage stmt (some t))
  client_insert-Stored bucket_num garbage stmt g h =
      inserted-Stored (client_insert bucket_num garbage stmt (some t))
        (client_insert-RowFits bucket_num garbage stmt t g h)
