-- ===== src/Tables/Double2.antt =====
-- The second 64 points of `DOUBLE_SCALAR_TABLE` in crypto/src/riscv_tables.c, 12 words a point.
use zkproof_demo.Base.{ℕ, List, [], ◌∷◌}

abbrev pub double_scalar_words_2 : List ℕ
double_scalar_words_2 =
    0x44955b062a6ecded ∷ 0x7791feea9015f170 ∷ 0x736bf603d12fc35a ∷ 0x2632adbca5388026
    ∷ 0x956e4c48e1697c4f ∷ 0x4ee9adfe8600e32d ∷ 0xa584042a0da56406 ∷ 0x34a3d7f4bf457353
    ∷ 0x8d4fd4fe00176fab ∷ 0x15321ee855941f4e ∷ 0x670701ef81f340a4 ∷ 0x0c7d7c618aed0ba8
    ∷ 0x73283131d9bfd9d6 ∷ 0x34935a39e31bac65 ∷ 0x466cfbbcaae8b991 ∷ 0x250dd54e18478ac6
    ∷ 0x659e46c51e40de4f ∷ 0x618ea014fec50e04 ∷ 0xfe64d883080b877c ∷ 0x572cabbb6688c4f7
    ∷ 0xa2c817493a834146 ∷ 0x06cd734876378120 ∷ 0xe3de0b717336a849 ∷ 0x36942f5191db53c4
    ∷ 0xa3f9adf66abf4d88 ∷ 0x2a9a144b8087fa96 ∷ 0xfe49fefcb78a5b4f ∷ 0x1be40a8616928bab
    ∷ 0x07a901975521f7aa ∷ 0x1fc66ea683693510 ∷ 0x4dbf0084ba42380e ∷ 0x1f374495b918c737
    ∷ 0xb8346956a380a00a ∷ 0x1346f4766fcdaa07 ∷ 0xb4db5689d46312c1 ∷ 0x775e7f3274dc1316
    ∷ 0x07898828f32341c0 ∷ 0x144390a33b3e86df ∷ 0x70bc604ce1e9c5e4 ∷ 0x127652de00220873
    ∷ 0x2874bc669df50d45 ∷ 0x236f4585150161f4 ∷ 0x3bfa4ffd318214e2 ∷ 0x7cc92a6165059745
    ∷ 0x2fae0e92090ef72a ∷ 0x26676bd59c4fcc3b ∷ 0x220c030974d1d447 ∷ 0x66455887e98686e7
    ∷ 0x4164b8e4d8760ddc ∷ 0x5517a86f840feb63 ∷ 0xd9b42c6c9371cade ∷ 0x3a7f03ceecc160b9
    ∷ 0xdd4086d64cae366c ∷ 0x1b6290c327842533 ∷ 0x144efcd2a7a0e82b ∷ 0x16621925ca10d31e
    ∷ 0xa9dcd13118e208f1 ∷ 0x5a90f97edcb1c54e ∷ 0x80c47331c8749d99 ∷ 0x6f061a3569a80b55
    ∷ 0x0f6abf619e2a15c5 ∷ 0x29106c98122245f4 ∷ 0x5860b10985c9b47f ∷ 0x4f379a379e15f410
    ∷ 0x2dd6f45df68e1678 ∷ 0x2c475167ad9b283c ∷ 0x23b7aa00952a6a3a ∷ 0x5532bc26a40c5365
    ∷ 0xa5c0a8be3596ce22 ∷ 0x4fa3127a9aefa56f ∷ 0x944e843aa973e67f ∷ 0x3c7727d45ae87854
    ∷ 0x48fa2ce675117ea4 ∷ 0x7bca8e04ad3bbb9c ∷ 0xd57439e4726f88e5 ∷ 0x3337d3a6a03b2286
    ∷ 0xb0b6172902005953 ∷ 0x514bd76734e6c0a1 ∷ 0xf97f8934eed7c6b4 ∷ 0x0abe13cee7f1b75e
    ∷ 0x6c88107a120e54a7 ∷ 0x634f966d7a6e11df ∷ 0x5044c53109b94097 ∷ 0x68d49fc65522b73a
    ∷ 0x69e295cd8c444666 ∷ 0x542c4c5fd999a224 ∷ 0x13ff89418b5da76f ∷ 0x7133fa786a87ecb4
    ∷ 0x2f180926456402b4 ∷ 0x52ddada7931c4dcc ∷ 0x6eaf0d2130c71590 ∷ 0x014ec2a2ec231826
    ∷ 0xac05b61443b34dd6 ∷ 0x157acbfab118b219 ∷ 0xe4e2f4b84ad01099 ∷ 0x0abf4a4da29a0eb8
    ∷ 0x5f852b85b59eab1f ∷ 0x1bd259c4726869ed ∷ 0xce565d9287790a15 ∷ 0x17a48442bcf58a00
    ∷ 0x01e519522381363b ∷ 0x2336d07a710da07a ∷ 0xcfebf2fbdc714cb2 ∷ 0x2f7a51474c23b8a9
    ∷ 0x77db2a07d4e3716c ∷ 0x40e8d8d2d0a09806 ∷ 0x644363ce6d401ae4 ∷ 0x53f9cae0470172fd
    ∷ 0x58d96ecd8ddadc53 ∷ 0x15028204f3d6d696 ∷ 0x6f40a09214439ce2 ∷ 0x738c5371236c3e56
    ∷ 0x64f87ee7a28bf9fc ∷ 0x4f1899449a810fee ∷ 0xd0aa95f4bf21e376 ∷ 0x6170cc24283856bc
    ∷ 0x9dfc4927d764ff75 ∷ 0x227ea1563fa2e012 ∷ 0xaddd3665622ce087 ∷ 0x473d3bea07a5285e
    ∷ 0xc0b986ee0d2b0eb2 ∷ 0x78e584c740dd18ed ∷ 0xd5adbf30a04fd508 ∷ 0x1c6aed5ab59bedbb
    ∷ 0x25d05fccbddb5ba1 ∷ 0x4a58fb6b3f896319 ∷ 0xdb2f6343fd8144fa ∷ 0x46a445de6d5b07e5
    ∷ 0xf67a06684fe9e1da ∷ 0x57b2515923b15c9f ∷ 0x50439940820a2a0c ∷ 0x62f4b9b26f04dab5
    ∷ 0xe79ea601d01b033d ∷ 0x009bc6176f10fffb ∷ 0x333bff2f907ed39a ∷ 0x253d0a9e626dd400
    ∷ 0x7a9bbedcfcbef06a ∷ 0x2d1b6a7a5b39342d ∷ 0xbadfb462a124cc9a ∷ 0x2e8cde9d82c15cb0
    ∷ 0x7c3f81bcd6f1b2a1 ∷ 0x04cb0b8fa4075294 ∷ 0xfa36d3db38cbd304 ∷ 0x59fef93442883553
    ∷ 0x91982a741cb9342e ∷ 0x7b9d63ac17b01982 ∷ 0x530b4ec25a293ece ∷ 0x611069ad9fa0f0a4
    ∷ 0x7a262a59b656a79d ∷ 0x6fe6f8f4d6d015b0 ∷ 0x2c2fd7641a5d4e50 ∷ 0x24b0c507058c911c
    ∷ 0x834882e492fe45ae ∷ 0x68d0b01b13432761 ∷ 0x0eacaaaf94178b8c ∷ 0x123e3a93006d7d01
    ∷ 0xecf2fe69377ff33c ∷ 0x4fc960ab4408584b ∷ 0x2adc445b1ee45654 ∷ 0x4989681cd1d09a93
    ∷ 0x79509599afe9e3b6 ∷ 0x7f6ffbbeee861c15 ∷ 0x2ed2859fd6391b25 ∷ 0x5e8bd52289b6ad27
    ∷ 0xc949280adbce7c79 ∷ 0x510999e865f0cd54 ∷ 0x7f957314ce7d373b ∷ 0x4b2c0ea4bab08ef2
    ∷ 0x2d7cc08b5c05a8db ∷ 0x4609a0ea23507697 ∷ 0xe204ba35182c55b8 ∷ 0x5e4d5903fdef61e6
    ∷ 0xfe63842f2826598b ∷ 0x782a3fd3ab62a179 ∷ 0xd2f01a1979e5a0f3 ∷ 0x0fb4c6bdd637fba2
    ∷ 0xfbff4c192020c350 ∷ 0x14859008c3d223c0 ∷ 0x65ed7a889c1a2e55 ∷ 0x1d78daf483fa12cb
    ∷ 0x5b54d11b01bc09ca ∷ 0x54fde75737306515 ∷ 0x89725231105b63a7 ∷ 0x712d1f394adcda99
    ∷ 0xb554006ee9abefab ∷ 0x04dd8f7bbd4c5381 ∷ 0x98d22b3a31995549 ∷ 0x637a53de6b57122f
    ∷ 0x8367d69b4c92da63 ∷ 0x236f2a9514250df6 ∷ 0xb265509af63d7b7c ∷ 0x08522e36bc4b65f8
    ∷ 0xabae725012ce8301 ∷ 0x493b257197a98ce9 ∷ 0x33185838570e5f0a ∷ 0x65f5477ac414eb6c
    ∷ 0xd002a36854699753 ∷ 0x2be693b4d96efdb3 ∷ 0x3b32484119bdc53d ∷ 0x55691ac09a8fae1e
    ∷ 0x0249e394514c047f ∷ 0x765674c90b78171f ∷ 0x1166f64638d6ab37 ∷ 0x746adba4cb52d18f
    ∷ 0x93e293653dda6cda ∷ 0x5d004ed52ebf0b68 ∷ 0x65c7c42d0ad96cc2 ∷ 0x3350dbe11cafca74
    ∷ 0xc638cfa8942fef67 ∷ 0x0ff2dfffc5ac1164 ∷ 0x9e1b625e649aa471 ∷ 0x13a219d03d2eb86d
    ∷ 0xdb92859ebaf9f7f9 ∷ 0x645c50918f7d5abc ∷ 0x25c10cfe99f7e5c6 ∷ 0x13d858b53f90170d
    ∷ 0xddb258b13ab1e7a6 ∷ 0x4849ff49f4e13fc4 ∷ 0x9ef87fa85511cda8 ∷ 0x48c50d4d3b4d2f7a
    ∷ 0x6c98422c8007c9ac ∷ 0x3fdd72e65a3d3491 ∷ 0x56b18cb165b4ec3b ∷ 0x6e2c6df9e3fc3daa
    ∷ 0xf6db5aa98ddc97a4 ∷ 0x423fd4082f3fb795 ∷ 0x42f8f5edf424d0a0 ∷ 0x1a091c2696139936
    ∷ 0x3161c2bbb3b2d58a ∷ 0x2e8d339eb0fb9099 ∷ 0x45ef7d11f6fab685 ∷ 0x7f222a068db3da4b
    ∷ 0x9af96f9742549a7c ∷ 0x55370df31dcec81c ∷ 0xde98e81b131af02e ∷ 0x58bd0622a474acee
    ∷ 0x8ab40fa7ca882e0d ∷ 0x5b4db195655f2410 ∷ 0x4754eb479ada77fd ∷ 0x67a8a437d6fc8a7d
    ∷ 0x9888254a4f0c9d58 ∷ 0x3232ba83bed0c618 ∷ 0x587b0de0207b57d9 ∷ 0x020df6becb096aa7
    ∷ 0xef9e41052a29a8ab ∷ 0x4ae671ee70a15a69 ∷ 0x167ce954923ee086 ∷ 0x6878c3996c1de887
    ∷ 0xb29c711490ac097e ∷ 0x1cf41a9c2577d144 ∷ 0x0590796ba46d8d29 ∷ 0x1c2e6dc8d4aebb65
    ∷ 0xbfb904f8ac9b4cb9 ∷ 0x4ea1742c786469e7 ∷ 0x5a422f48401be57d ∷ 0x0be0afdc77d6d32f
    ∷ 0x5e8765cba2c738d3 ∷ 0x7dad0475059a089d ∷ 0x9288ae0c40df7df6 ∷ 0x51c65f97715a16d5
    ∷ 0xa9615d4c786ff9d4 ∷ 0x507ffe03ec0189ef ∷ 0x1c1f46684604e41f ∷ 0x282fe9d567db0efc
    ∷ 0xebee7f8381fb8178 ∷ 0x5bd4b6045c208d57 ∷ 0xf35694743439ed71 ∷ 0x7cddd5a373ebc5ec
    ∷ 0xa58df33cc68e3b5f ∷ 0x40e6714f5c5c8df3 ∷ 0xea881d4bfd489131 ∷ 0x6b36400b491c28c1
    ∷ 0xd4475cf594b6303b ∷ 0x5b630cddc72e654a ∷ 0xa0b587ad34394ce3 ∷ 0x3ea3ba6014f86275
    ∷ 0xc3deac125d20eeee ∷ 0x2ef3568410a2b3bb ∷ 0xee6ba3fac5d7ec00 ∷ 0x5fabcb3337aaa23c
    ∷ 0x6b1212e7b817889a ∷ 0x0b37d285a9be51d1 ∷ 0x617ca543d762bf51 ∷ 0x0896b4ca694b01d0
    ∷ 0xe3add9718277a1fb ∷ 0x553dee7dd4784865 ∷ 0x904b8f7e936cf430 ∷ 0x5b6a78f20b244b90
    ∷ 0xa2b876c2914b9bfa ∷ 0x704de952e9d969f4 ∷ 0xb04ea1b54b7e7654 ∷ 0x5d307bb3949cf660
    ∷ 0xcee4c23ebd049d17 ∷ 0x7a88293bb1031063 ∷ 0x00b8432b8286f656 ∷ 0x260a9c86a16216e5
    ∷ 0xd140e6e6629d8686 ∷ 0x296011ff5601a000 ∷ 0x536f0f76cd9b2928 ∷ 0x267409c23a823dd4
    ∷ 0x0f041043797f8423 ∷ 0x3da6102605962ca9 ∷ 0x2e69dfeea02098ea ∷ 0x427e7eeeecd3a0c5
    ∷ 0x75efa5e8a590793d ∷ 0x1f5841df6dfdfc91 ∷ 0x1aa1e1b8b9f3c326 ∷ 0x07bd5b0983fcee91
    ∷ 0xd169420be9c48939 ∷ 0x7940334f0bb9023d ∷ 0x9bb330fff113764f ∷ 0x674ff1b0cfe246c7
    ∷ 0xe2083f8d7129cbab ∷ 0x7e6223e3d9c04904 ∷ 0x9be411a7d5e883a3 ∷ 0x72642664e7c25590
    ∷ 0xbb1f783b5c412322 ∷ 0x46716e8fd737280b ∷ 0xfa363eeaeffde271 ∷ 0x6c256c131fc2c3b9
    ∷ 0x13259abfcb2ce1d8 ∷ 0x53b96556e96aa708 ∷ 0xfaa7c8d25119da19 ∷ 0x05019f438e9f8995
    ∷ 0x05e1d55a9424f1ee ∷ 0x63e8e14e6c2f3f09 ∷ 0xe9d844e997a10158 ∷ 0x51904ed1e94a0ca5
    ∷ 0xb09462d4df6bc6cc ∷ 0x2ee5308e62172691 ∷ 0x3f8438484547187a ∷ 0x62b92b8d9739ddd4
    ∷ 0x3ca54ab5d39f083c ∷ 0x25b3336048a288d4 ∷ 0x7cab0fd67e296979 ∷ 0x58ba2e783962cbb7
    ∷ 0x77808f1a1b8f3515 ∷ 0x290c219ee7153bdd ∷ 0x7584441f79128f01 ∷ 0x0442db406f5135e3
    ∷ 0xe741de52ec030a9d ∷ 0x37469756586776b2 ∷ 0xbd64c2a7173adde0 ∷ 0x2280b66d20888d0c
    ∷ 0xdd1b53cb4adb0fb2 ∷ 0x3974964394c445be ∷ 0x53b6a95e7c7fdd97 ∷ 0x6eacdc6f50496d95
    ∷ 0x178d04c0578a5bb3 ∷ 0x0d171a5f5215c9c8 ∷ 0xfe0d0171c504962e ∷ 0x04eece54b220495e
    ∷ 0xac4d145001db67aa ∷ 0x6577c466962160af ∷ 0xcddae62d99686ad7 ∷ 0x7a053a048d230d89
    ∷ 0x1ff09aa0e605a880 ∷ 0x5d260426f355232f ∷ 0xfbdaf7b0b53aab89 ∷ 0x5eef31b9eb0df78c
    ∷ 0xfb787e56b7276288 ∷ 0x4dcccba87d630d06 ∷ 0x415e4a4bc0a44b01 ∷ 0x0f0a981f71d8ae33
    ∷ 0xe0ebb786f98a1502 ∷ 0x0ea4aa3ce70dc628 ∷ 0x8d36240617ebe037 ∷ 0x2d20c0e1d2002b5b
    ∷ 0x336f8aa411a30282 ∷ 0x1d87c67d8178ec4c ∷ 0xe468dff8ac26b63b ∷ 0x266086bd7f11c9bc
    ∷ 0x05cfeedc80d829f8 ∷ 0x146902a029dd3355 ∷ 0x413db9327c068394 ∷ 0x55fa413791f64c38
    ∷ 0xe06395c10021bf9d ∷ 0x18d66268cf79ce45 ∷ 0x9e7ae6858dcc21bf ∷ 0x3ad51dbe97b558f7
    ∷ 0x06792c747aeef43c ∷ 0x27ec9b782170abb7 ∷ 0x6aafca394a23e935 ∷ 0x18f7cbd98db64112
    ∷ 0x34146ce6b36edbfa ∷ 0x1dcfb4eab7ccea23 ∷ 0x68498e1f45b35467 ∷ 0x1b20d71a3b71d412
    ∷ 0x7a875fc94e602e3e ∷ 0x78c15fa449576c2b ∷ 0xb52326d01ccafe8a ∷ 0x3f53f57324d70666
    ∷ 0x3830836e39bcebaa ∷ 0x27a30c73dd02c884 ∷ 0x5dfed73dedf2306f ∷ 0x75ee4a8b6cf54f74
    ∷ 0x97ecc9c5851a8e3e ∷ 0x496b581690c3df2d ∷ 0xf7bba1fe2d169e7d ∷ 0x4b06184810a77bd3
    ∷ 0x40e6d643b903c7bd ∷ 0x3c90f63b5176906d ∷ 0x92f47e1ac51f1ec6 ∷ 0x70c2454c53cc0dcf
    ∷ 0xb5a75d246c653b4e ∷ 0x7e5173a420a8b0df ∷ 0xcafb44c471d0f4a3 ∷ 0x69a3a4e92bbe5977
    ∷ 0x26e93183cdfeb424 ∷ 0x1e0489b56fa7e130 ∷ 0x669befa672fe9979 ∷ 0x0f8aea6a7ef65bf9
    ∷ 0xff0b883ea96b51ff ∷ 0x31a668763c3c8867 ∷ 0x6887a0029701c9be ∷ 0x545644cd70c87d63
    ∷ 0x537b6fb7db9410e0 ∷ 0x6ca227f10229b3b9 ∷ 0xc7d1b4d71ff22468 ∷ 0x522058d3b20569f9
    ∷ 0x5f4bfd813a51fb62 ∷ 0x105b94a3a42424a1 ∷ 0x96dfdb685825857b ∷ 0x14d98588154500bf
    ∷ 0xb4db83514c7a9404 ∷ 0x67aaf998856faf37 ∷ 0x1229d7e95dbc821c ∷ 0x7e617a17a2f72bd3
    ∷ 0xe964cdba7222695a ∷ 0x677619cc40a07eaf ∷ 0x7f82c099a8df7538 ∷ 0x2a219175ec95a1ad
    ∷ 0x755ac147b51ff3dc ∷ 0x4a87f652f86823ec ∷ 0x6d8d4a923f50278d ∷ 0x4bb952ac98c0120a
    ∷ 0x968c57a6a31e482c ∷ 0x0855a11481fd5653 ∷ 0x3f05db6ac608d16d ∷ 0x33f9e5746e1079c6
    ∷ 0x1f3458e3ec51f53a ∷ 0x4ae3fc836ceccf81 ∷ 0x3c0b2e2db5875ddf ∷ 0x42336a1262cbb5e0
    ∷ 0xe3651453cadc3868 ∷ 0x25081cfd6e80a2de ∷ 0xd4cb31092872e53a ∷ 0x16ca9349a11a9c37
    ∷ 0xb1d3ae440d1cb675 ∷ 0x41b2d6ecbccbd6a4 ∷ 0x475e6a844c3d0ca1 ∷ 0x2cd0e0dedbf07023
    ∷ 0x85ad446ddb002a6e ∷ 0x72a06e5419a64609 ∷ 0x9e779387e9a3276c ∷ 0x414a8163a9408b10
    ∷ 0x25c7b53c1791333e ∷ 0x3ea57190b42cd838 ∷ 0xbf20b346b094f121 ∷ 0x47570cba99b06c9d
    ∷ 0xe6bd01c8746cb5f2 ∷ 0x3c0b0b8c4c0968ef ∷ 0xb22009690e243975 ∷ 0x251737e4a5643da2
    ∷ 0x3cdd49123ab89dea ∷ 0x68748cd1e3cc45a6 ∷ 0x563746685effea7b ∷ 0x4e4c5b1c86eb3a29
    ∷ 0xe1ba017516d32070 ∷ 0x5cdd35a0c4ba93a3 ∷ 0xdbc66a0c7de30288 ∷ 0x22107156a0f700f1
    ∷ 0x0fb69045aac0f647 ∷ 0x111dcb9763d08bc0 ∷ 0x266db39f6d78cced ∷ 0x02a32587c7033892
    ∷ 0x76fc94ce6a2a4b19 ∷ 0x474db0f12fcfa96f ∷ 0x0c44584c08377ac7 ∷ 0x5f435bf43140f4c0
    ∷ 0xb9741c3014eef7a3 ∷ 0x54596c23b536ff04 ∷ 0xeadf56bb6ea39450 ∷ 0x32f24f6e1a656b10
    ∷ 0x21422e4dd5f54e3f ∷ 0x0d6ad57853660607 ∷ 0xf6f62ffdd0bf9928 ∷ 0x72569c930015caa7
    ∷ 0xf4293579931b9216 ∷ 0x049d6a4057e6827e ∷ 0x6223e20060be0e05 ∷ 0x20d91ae969dfa9a4
    ∷ 0x02611b345456d47a ∷ 0x601dd413d1bdea0f ∷ 0xe6b017b26bbc9bf8 ∷ 0x63399ff3d6542359
    ∷ 0xdbdfe225045a9764 ∷ 0x10acd93346649beb ∷ 0xc652d5a50e0535ce ∷ 0x49efbd5639c4caf1
    ∷ 0x65a5dbd8a304de65 ∷ 0x08ddebed0e865be8 ∷ 0x5db8337d5e715261 ∷ 0x34cf4c75496807e2
    ∷ 0xd840c7416e44b56a ∷ 0x10fd30d282d8b151 ∷ 0x36ffe6df2c1c9568 ∷ 0x66d8a38b6d31a2b1
    ∷ 0x01fad3aa61984774 ∷ 0x412a9fd87b303d90 ∷ 0x2720945ee0f0ec9e ∷ 0x0c91b4c7ea84cf37
    ∷ 0x98462f25fd5832f0 ∷ 0x6f4cd578c490d842 ∷ 0xecc7d24c31ed3342 ∷ 0x580ab96994515fd8
    ∷ 0x6d8a97ed98465b3e ∷ 0x16995dc010908ae3 ∷ 0x50626a4e555b774a ∷ 0x082636e5a8a9b568
    ∷ 0xa99435cc4823b413 ∷ 0x41fc423d10eff4e7 ∷ 0x114236dce6f9f9dd ∷ 0x6c3995c4bbe0aadc
    ∷ 0xf3f22c975935753d ∷ 0x6b1b3f27edec2a78 ∷ 0xdbadaac32ccc292e ∷ 0x3856036f8a3795aa
    ∷ 0x947154caaec01d73 ∷ 0x0a22e573e3f0f49b ∷ 0xc50c949f39c184a3 ∷ 0x2aadd0868535d0c8
    ∷ 0x22bc5bbe5f992446 ∷ 0x15d36adfca3ace90 ∷ 0x038010e37a6308f9 ∷ 0x161b06d8d7180307
    ∷ 0xcfbf4e3abef8d056 ∷ 0x2a1765fe9c7696ba ∷ 0x6a15d44ce18ef392 ∷ 0x5405239c0369de64
    ∷ 0x5fabda1210f58e29 ∷ 0x40cbb03974b37035 ∷ 0xa29fdf2875322520 ∷ 0x3b32ace85edac547
    ∷ 0x0f0c92b41d679df8 ∷ 0x7f07ecd47a7d2f0c ∷ 0xb5fc65c05accc95a ∷ 0x0e8b1da70636f221
    ∷ 0xb2ebd131f4e8a846 ∷ 0x7df51e4aba57f391 ∷ 0xaa2f3d40fef689ed ∷ 0x0ee1e115fde5d582
    ∷ 0xf7d025b42e240ae6 ∷ 0x29fc1befeb526af2 ∷ 0x7c5ffcaff205e565 ∷ 0x4cf4d0d8840e2e1e
    ∷ 0xb8b00d1810ad0ff6 ∷ 0x44d3af686ba915ff ∷ 0x86a8fd1eeea8d08c ∷ 0x3eb300adcf6edc4f
    ∷ 0x8db03c266b588186 ∷ 0x289d0fd301e96881 ∷ 0xba83ba260cccc170 ∷ 0x26ee69546ceb0c77
    ∷ 0x1109d8bf92c4ea05 ∷ 0x033aa036671937d1 ∷ 0x4bd9902e5a664a0b ∷ 0x42bd48ed44fdbb71
    ∷ 0x7359e19357a9622d ∷ 0x0d6ee92855dae22f ∷ 0xc24debb323643859 ∷ 0x4c60fee1e191766e
    ∷ 0x3beaec0e99faa328 ∷ 0x056c2ae1709c5b0a ∷ 0x7fe89e0c62710909 ∷ 0x7e3b5cd3ac4e6ce1
    ∷ 0xe9d06486ac7370a4 ∷ 0x4b1a8c62e99f9429 ∷ 0xb11a50e20bc3197f ∷ 0x75ec513c25dac300
    ∷ 0xfb9fd064b1466dca ∷ 0x290379cfce59308c ∷ 0xca3ee3fb7db99943 ∷ 0x2af7a3e930faea44
    ∷ 0x0d294e6d1505e35b ∷ 0x7d534585181e001f ∷ 0x90285700831d4cfe ∷ 0x419f25105d06c90e
    ∷ 0x5f71e79f5f828172 ∷ 0x02921e2a43326798 ∷ 0xa0981553e84d4a6a ∷ 0x220c82041938573d
    ∷ 0xfd2b5b78ef20c927 ∷ 0x3c99a2dc611caddb ∷ 0xfb1247fd99ed2828 ∷ 0x4b3a3739f724890c
    ∷ 0x7775ea2d7d2d1017 ∷ 0x3ab07cb5ba8ac987 ∷ 0x82e5123a20a6b5c3 ∷ 0x44965098aa82161f
    ∷ 0x20948c77e9ac4c0c ∷ 0x521e934ab214157d ∷ 0xc8f4f4052dffedab ∷ 0x1da963c2ef46f27f
    ∷ 0x3be7631e212fa2e0 ∷ 0x0d188e88d1a4184e ∷ 0xb4483ed385de4bae ∷ 0x4ffadfde83d2b0d9
    ∷ 0xacebd9a51a938608 ∷ 0x40968c0c9302b0e8 ∷ 0x85704404d06f3a5d ∷ 0x3e9f477a61a26d37
    ∷ 0x1da1efc7cbd18d12 ∷ 0x4fb87a47b9f2cb04 ∷ 0x7556a45e8b5c8caf ∷ 0x7f6991b7723b35cc
    ∷ 0x3fa10a169532635f ∷ 0x15e61b1cd72bd52f ∷ 0xe6b45dc3b4667c21 ∷ 0x45cf3bd4bbf39baf
    ∷ 0x7343b0636a9d63f9 ∷ 0x457551c49ac49567 ∷ 0x331e611a3fcec018 ∷ 0x7d19e2584756b92d
    ∷ 0x78951df174059655 ∷ 0x0573cd896a793337 ∷ 0xb3e37121fd458870 ∷ 0x3cc032b1a1bebc3c
    ∷ 0x2571dd06d24d5a41 ∷ 0x017382ec4aa29ffa ∷ 0x6cda850c15a224ed ∷ 0x6af59bee2d7586d4
    ∷ 0x287d3c4027f80ee9 ∷ 0x6aa570b9e51d4f25 ∷ 0xf29f327c5e0490d5 ∷ 0x00fb62f93f43edfb
    ∷ 0x7b06e602dc313277 ∷ 0x5d8dc98e723b039e ∷ 0x5bb61813041a589a ∷ 0x2a4c9f13eef7f1ec
    ∷ 0x9439edcb4bbaba6f ∷ 0x027f4d494e7784ad ∷ 0x087ae2a2fd6bbc8d ∷ 0x230f37ba41aec2ff
    ∷ 0x63876e43daaac09c ∷ 0x28abd7ae6e17dbe3 ∷ 0xd354d50cf000982a ∷ 0x1dd774a1273aea75
    ∷ 0x243658930d4b0902 ∷ 0x0df50723a2da63d7 ∷ 0x22bc07b9ac9628c5 ∷ 0x134123d68aa939cc
    ∷ 0x4e84ee2cf0d450e2 ∷ 0x53a8c6dbd4aa9ed1 ∷ 0xd06e741c45610565 ∷ 0x608da7f96f2f7e19
    ∷ 0x59b7fc9fe6a0243c ∷ 0x0da36bb46fd1eb3d ∷ 0x09a11de836914182 ∷ 0x3becc1cc0b96f1e4
    ∷ 0x820b8a4cad71c17f ∷ 0x2a425dd0204a843c ∷ 0xf6f7fdaae1523c28 ∷ 0x5fb74c0c961e6fb1
    ∷ 0x0c76e0f72b7845a2 ∷ 0x273db117946ce778 ∷ 0x7a22d35cdea5934f ∷ 0x73aeeb1b24265d5d
    ∷ 0x938a618552e4392d ∷ 0x6050215beb6c1923 ∷ 0xf32f6ab781efbf2f ∷ 0x2e4ece5c476e1354
    ∷ 0xf2a4a59613812356 ∷ 0x555185da018933fd ∷ 0x2fffbf95863bce54 ∷ 0x72644f9c3181e7a6
    ∷ 0x98c6b1d509e3d624 ∷ 0x5bddd5730939d7d0 ∷ 0xdd197613d550fbad ∷ 0x7671fafa1facb923
    ∷ 0x13dbb61148c5b802 ∷ 0x616bc5c73ccdc3bd ∷ 0x0b175b4c46fd8871 ∷ 0x498a1eeb000ab870
    ∷ 0xa49f1ca2d7802521 ∷ 0x6906346cce00be5a ∷ 0xf1bc33c727dd52b0 ∷ 0x5d005ff3122fd749
    ∷ 0x51318ad5d7c622e7 ∷ 0x50f93d6d15e46e82 ∷ 0x88dfa2123ffff3b9 ∷ 0x3848e6fce3cac6e5
    ∷ 0x6cefc31a33ea4f5e ∷ 0x0cc5e7dc4e5e144f ∷ 0xee2009402e59a7e2 ∷ 0x257679fdb86f4712
    ∷ 0x4cf68953d8b17e83 ∷ 0x710f970c16ce2070 ∷ 0x4000b8e9e51e6aad ∷ 0x5af48dacd01f24f6
    ∷ 0x209679d5d3fcc916 ∷ 0x0a3538dd7cbe8232 ∷ 0x2d6d7aba44d990d2 ∷ 0x46c718f2d4b2c1a6
    ∷ 0x9953d799a378233c ∷ 0x4f4e80f4a682e7a0 ∷ 0x9912f04acbb77eee ∷ 0x317432079a195b2d
    ∷ 0xaccccda6a1c11e3b ∷ 0x3fd895817d0f3be2 ∷ 0x016db17673f750ea ∷ 0x635fc619a24009b6
    ∷ 0xb8447ab3370da1e7 ∷ 0x6c893aa19abf4221 ∷ 0x5f35ac703d8508d0 ∷ 0x13533d324d4adcb5
    ∷ 0x84610370dece8512 ∷ 0x2223f126f9a70f4b ∷ 0x18f00d60f3bf6a04 ∷ 0x174bd78b20ef8543
    ∷ 0xeb179bc6a1698189 ∷ 0x732bf44a62015302 ∷ 0x98352342bc0e4bc6 ∷ 0x053f6640c1549e85
    ∷ 0x65eee8b0397c7ce8 ∷ 0x790451f39f2fa27b ∷ 0x36ffa0cb286cdb97 ∷ 0x46d07cec4c967bf2
    ∷ 0x7c849ace30868412 ∷ 0x6dee239d339ef499 ∷ 0x8ab78548f273e57f ∷ 0x01c5bebd8b7f5ef0
    ∷ 0xe440e5f042eae93b ∷ 0x65583f57fe057db6 ∷ 0xe6d5d26c24a565c9 ∷ 0x6b3b87a0a6ad702f
    ∷ 0xd3f5d533117b8e64 ∷ 0x4addb9d0da92df89 ∷ 0xf1bd51990e0f9bfa ∷ 0x30c624ec1dbcd0a4
    ∷ 0xafaf2f00da7023a0 ∷ 0x3086e132b54574e4 ∷ 0x93bdbd4bfd3dd8c7 ∷ 0x690976ee132c892e
    ∷ 0x86fc11c79524d198 ∷ 0x0f6b95662e02c734 ∷ 0x5b78bb385564f568 ∷ 0x55c9b3f55d7cd16b
    ∷ 0xdf1316434ad1c07f ∷ 0x093d67d3fdf312de ∷ 0xa1fd2257ea57b3d6 ∷ 0x4b5b18abe4b54439
    ∷ 0x66c28f5b59d796b2 ∷ 0x7baffe6e642fdea4 ∷ 0xb9d3753265e68ae4 ∷ 0x40903bd6dfb02d6f
    ∷ 0x357958d4d72d6bc8 ∷ 0x179330dea4659dd3 ∷ 0x5a9ca85bc8721aef ∷ 0x0209f09e03c9b225
    ∷ 0xc0bf2e9738933495 ∷ 0x5e0dde4d715e50c5 ∷ 0x2743c96b66a6b951 ∷ 0x6af96188a0d6d358
    ∷ 0xb2f3c72820f2a709 ∷ 0x5e9b8fd43327d9a0 ∷ 0xf0b13f5324012177 ∷ 0x7abdeaf4f741bace ∷ []
