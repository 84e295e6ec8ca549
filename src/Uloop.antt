-- ===== src/Uloop.antt =====
-- uloop.c: the event loop. Each part is a module: points in time, the lists kept in order, the
-- timers, the processes that are waited for, and the signals.
mod Time
mod Order
mod Timers
mod Processes
mod Signals
