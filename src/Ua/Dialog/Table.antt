-- ===== src/Ua/Dialog/Table.antt =====
-- rssip/src/ua/dialog.rs, `DialogPlugin`: the table of the dialogs as a map.
use mathlib.Core.Logic.{ite}
use rssip.Prelude.{ℕ, ◌≡◌, none, some, [], ◌∷◌, arith}
use rssip.Ua.Dialog.{
  DialogId, DialogId-discrete, Dialogs, get_dialog, remove_dialog, register_dialog,
}

-- A dialog that is dropped is not found any more, and every other one is found as before.
pub get_dialog-remove_dialog :
    (dialogs : Dialogs) (id k : DialogId)
    → get_dialog (remove_dialog dialogs id) k
      ≡ ite (DialogId-discrete id k) none (get_dialog dialogs k)
unfolding get_dialog remove_dialog
get_dialog-remove_dialog [] id k = ground arith
get_dialog-remove_dialog ((j, channel) ∷ rest) id k =
    ground (arith, get_dialog-remove_dialog rest id k)

pub get_dialog-register_dialog :
    (dialogs : Dialogs) (id k : DialogId) (channel : ℕ)
    → get_dialog (register_dialog dialogs id channel) k
      ≡ ite (DialogId-discrete id k) (some channel) (get_dialog dialogs k)
unfolding get_dialog register_dialog
get_dialog-register_dialog dialogs id k channel =
    ground (arith, get_dialog-remove_dialog dialogs id k)
