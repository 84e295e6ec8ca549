-- ===== src/RunQueue/Events.antt =====
-- Any sequence of calls and expiring timers keeps a queue's flags, lists and counter in agreement.
use openwrt_libubox.RunQueue.{RunQueue}
