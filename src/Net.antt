-- ===== src/Net.antt =====
-- src/net/epoll: the timer wheel.
pub mod TimerWheel
