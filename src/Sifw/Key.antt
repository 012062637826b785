-- ===== src/Sifw/Key.antt =====
-- The keys of a lightweight message's header and body, which the handlers of iw_fw_lwMsgUtils.c,
-- iw_fw_microservices.c and task_lwmsg_dist.c write out.
use io_tware.Common.{[], ◌∷◌}
use io_tware.Sifw.Text.{Text}

abbrev pub if_id : Text
if_id = b'i' ∷ b'f' ∷ []

abbrev pub dri : Text
dri = b'd' ∷ b'r' ∷ b'i' ∷ []

abbrev pub di : Text
di = b'd' ∷ b'i' ∷ []

abbrev pub rsc : Text
rsc = b'r' ∷ b's' ∷ b'c' ∷ []

abbrev pub mis : Text
mis = b'm' ∷ b'i' ∷ b's' ∷ []

abbrev pub mi : Text
mi = b'm' ∷ b'i' ∷ []

abbrev pub mif : Text
mif = b'm' ∷ b'i' ∷ b'f' ∷ []

abbrev pub ops : Text
ops = b'o' ∷ b'p' ∷ b's' ∷ []

abbrev pub op : Text
op = b'o' ∷ b'p' ∷ []

abbrev pub tis : Text
tis = b't' ∷ b'i' ∷ b's' ∷ []

abbrev pub ti : Text
ti = b't' ∷ b'i' ∷ []

abbrev pub tif : Text
tif = b't' ∷ b'i' ∷ b'f' ∷ []

abbrev pub to : Text
to = b't' ∷ b'o' ∷ []

abbrev pub fp : Text
fp = b'f' ∷ b'p' ∷ []

abbrev pub sp : Text
sp = b's' ∷ b'p' ∷ []

abbrev pub fps : Text
fps = b'f' ∷ b'p' ∷ b's' ∷ []

abbrev pub sps : Text
sps = b's' ∷ b'p' ∷ b's' ∷ []
