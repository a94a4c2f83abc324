-- ===== src/Lake/Windows/Laws.antt =====
-- What `land_windows` (src/tickstream/lake/windows.py) lands.
use tickstream_streaming_lak.Prelude.{ℕ, ◌+◌, ◌≡◌, refl, Bool, false, List, []}
use tickstream_streaming_lak.Errors.{Result, ok, ◌>>=◌, bind-ok, Returns, Returns-bind}
use tickstream_streaming_lak.Py.{Json, Runtime}
use tickstream_streaming_lak.Lake.Poll.{Poll, drain, rows_of, IsDrained, IsPrompt, write_rows}
use tickstream_streaming_lak.Lake.Poll.Laws.{
  drain-IsDrained, drain-prompt, HasRows, write_rows-HasRows,
}
use tickstream_streaming_lak.Lake.Windows.{WindowRow, window_row, land_windows}

module _ {F : Type 0} (r : Runtime F) (loads : List ℕ → Result (Json F)) where
  land_windows-Returns :
      (begun timeout idle : ℕ) (clear : Bool) (polls : List Poll) (stored : List (WindowRow F))
      → Returns
          (HasRows (window_row r loads) clear polls stored)
          (land_windows r loads begun timeout idle clear polls stored)
  unfolding land_windows
  land_windows-Returns begun timeout idle clear polls stored =
      let read =
        drain (window_row r loads) (λ n. false) (begun + timeout) idle polls (begun + idle) [] in
      Returns-bind (IsDrained (window_row r loads) polls []) _ read _
        (drain-IsDrained (window_row r loads) (λ n. false) (begun + timeout) idle polls
          (begun + idle) [])
        λ rows v. write_rows-HasRows (window_row r loads) clear polls stored rows v

  -- A call that returns has read one row for each message of some first rounds, in their order, and
  -- returns their number; if there are any they stand behind what the call kept, and if there are
  -- none the table stays as it was.
  pub land_windows_lands :
      (begun timeout idle : ℕ) (clear : Bool) (polls : List Poll)
      (stored table : List (WindowRow F)) (n : ℕ)
      → land_windows r loads begun timeout idle clear polls stored ≡ ok (table, n)
      → HasRows (window_row r loads) clear polls stored (table, n)
  land_windows_lands begun timeout idle clear polls stored table n h =
      rw h at (land_windows-Returns begun timeout idle clear polls stored)

  -- If every round comes before the deadline and no silence lasts for the idle time, the windows of
  -- all messages are landed, or the call raises what the first bad message raises.
  pub land_windows_complete :
      (begun timeout idle : ℕ) (clear : Bool) (polls : List Poll) (stored : List (WindowRow F))
      → IsPrompt (begun + timeout) idle (begun + idle) polls
      → land_windows r loads begun timeout idle clear polls stored
        ≡ (rows_of (window_row r loads) polls >>= λ rows. ok (write_rows clear stored rows))
  unfolding land_windows
  land_windows_complete begun timeout idle clear polls stored h =
      rw (drain-prompt (window_row r loads) (begun + timeout) idle polls (begun + idle) [] h)
        (rw bind-ok refl)
