-- ===== src/Ustream.antt =====
-- ustream.c: streams with buffered data. Buffers is a list of buffers; Stream is the two lists of a
-- stream, Reader and Writer what a program does with them, Descriptor the streams of file descriptors.
mod Buffers
mod Slices
mod Invariant
mod Heads
mod Prepare
mod Prepared
mod Stream
mod Reader
mod Writer
mod States
mod Consume
mod Read
mod Buffered
mod Written
mod Pending
mod Printed
mod Emptied
mod Receive
mod Descriptor
mod Tests
