-- ===== src/Tables/Double4.antt =====
-- The fourth 64 points of `DOUBLE_SCALAR_TABLE` in crypto/src/riscv_tables.c, 12 words a point.
use zkproof_demo.Base.{ℕ, List, [], ◌∷◌}

abbrev pub double_scalar_words_4 : List ℕ
double_scalar_words_4 =
    0x19e04d1b2b0fe7fb ∷ 0x56381ebd8181b50e ∷ 0x5c8970c249df4ac3 ∷ 0x08acaece8ede7685
    ∷ 0xc44f1a71aca0d20b ∷ 0x623edc8d92e4ac3a ∷ 0x5496a7e5885a0c95 ∷ 0x20a9ba37315b116e
    ∷ 0x3765873809f5b55d ∷ 0x23c44c42ebef2ff5 ∷ 0x56a96d921f724573 ∷ 0x3217815b72b8a9eb
    ∷ 0x2cc1b42f5350a489 ∷ 0x31f0b36e85b8c70b ∷ 0x504a5c8c4d2ce34d ∷ 0x1af8ea26b3786eac
    ∷ 0x69bc5e26d7afd62f ∷ 0x21e399d04247bf9a ∷ 0x6e6d6676a88efb27 ∷ 0x476212b9fe9a6fd4
    ∷ 0x0740fb65284168de ∷ 0x5f7570be65e69408 ∷ 0x0166c3279dd81c29 ∷ 0x6565489007c4ed6d
    ∷ 0xbafb5bd37b5219c9 ∷ 0x00251709f2e210f7 ∷ 0x0d22639b51c1198b ∷ 0x0f3c0df3be3de811
    ∷ 0x3552612be3374eef ∷ 0x0834744318ffa0aa ∷ 0xcb9f1c1e3557a00c ∷ 0x20c359f5de8b6614
    ∷ 0xd319482a34d05268 ∷ 0x42165771b46b75d7 ∷ 0xca336c22e8d911a6 ∷ 0x4d072f70067a47e1
    ∷ 0x9022c6f101555e9e ∷ 0x4c8c7eaf7cc2d697 ∷ 0x629810b2d8044817 ∷ 0x25110bc01b06c9c1
    ∷ 0x1bf9c06bf39eaff7 ∷ 0x6cc36f151f52b4e8 ∷ 0x76b73a6a14b62068 ∷ 0x47dcb0dc89db3821
    ∷ 0xfe9dfeac2f670f41 ∷ 0x625b5c93b973c417 ∷ 0x5f8c917930133c1a ∷ 0x6bd35f3e0992bb2b
    ∷ 0x03b5391a85409e5e ∷ 0x7981d8fd16362767 ∷ 0xdb45c80a32a23cb6 ∷ 0x67356a7ef48b2dc3
    ∷ 0x6189236e9f01adaf ∷ 0x07a1e954e5032bd6 ∷ 0x53d627199c69727e ∷ 0x25d67e4163cec014
    ∷ 0x18e7bb6a63a80738 ∷ 0x3112be4cb5dcbc74 ∷ 0xad9ad6d381643f04 ∷ 0x116112cbeabb734d
    ∷ 0x32623abe2d66ff07 ∷ 0x4d780300822436de ∷ 0x9bed066c04497808 ∷ 0x40db29b39ce86700
    ∷ 0x6e5e5eb3805602a5 ∷ 0x52f227f2b1b9b40d ∷ 0x51c2c4c197a18394 ∷ 0x6d8bca423ee270bc
    ∷ 0xd6e60cfe8fb07f72 ∷ 0x7dd66c3970f940c6 ∷ 0x66aea7b59a0b17cc ∷ 0x75fcf8b00160d729
    ∷ 0xbedc5ea39b2402b5 ∷ 0x0dc3600425feedd5 ∷ 0xadc1ddf2cb1b6631 ∷ 0x205ee93e3aae976a
    ∷ 0x7a2cb4e333c98498 ∷ 0x7d12eb776d56872c ∷ 0x8e339bc1b41599fe ∷ 0x4600f0a53fac9427
    ∷ 0x1049d3a372f14304 ∷ 0x7b54e020b22db742 ∷ 0xd567962272a35739 ∷ 0x27a1178b1115f0c4
    ∷ 0x6cfb39d619c35e1b ∷ 0x5cb96fd1a9d9d486 ∷ 0xaf45cef7fb4fffea ∷ 0x4a73d7b2ba9321d1
    ∷ 0x44b46b4a80be86ac ∷ 0x2769b50579e8f734 ∷ 0xab5d109e7472f372 ∷ 0x2bccfba1cbe995b6
    ∷ 0xc00026115332f6a3 ∷ 0x7acb287da1561c53 ∷ 0x21555c608cd90dd9 ∷ 0x7731d1b2878dae13
    ∷ 0x32122bf5ec1a0649 ∷ 0x592b5fa180ec8467 ∷ 0x876be1b5ad9ce66f ∷ 0x484c1cc5bb34819d
    ∷ 0x08e4cc425b30b06c ∷ 0x2766065f0e4d22ce ∷ 0xd90825644987aeff ∷ 0x3a835fcc7fc456a6
    ∷ 0xf4d801d2cc806d69 ∷ 0x41d767ecca55f839 ∷ 0xf2dea9fd01f1e74f ∷ 0x74d01b97462211cb
    ∷ 0xe43e280ad29f80cc ∷ 0x5cdf66a69029b231 ∷ 0xe8d655a03c862cd9 ∷ 0x388e38b58d0e8c79
    ∷ 0x5d9aaa4848ff83a2 ∷ 0x14d6fbee4d6cbe74 ∷ 0x0426dcda912109ea ∷ 0x1bb7b9cd75d4b541
    ∷ 0x3a3c0504b39b8505 ∷ 0x35a3c5882b31367a ∷ 0x678793d635a6473a ∷ 0x66abca7e20202034
    ∷ 0x4a90ff1dad300021 ∷ 0x18f29036544d2684 ∷ 0x2036d39b8f69095d ∷ 0x36490f5645d18cc8
    ∷ 0x9414d7368ad3562e ∷ 0x7f8108a04558487e ∷ 0x93db0e56d653e40b ∷ 0x03f413ea960537bb
    ∷ 0x984717b77f7267ef ∷ 0x6c5d9da4a5ee7305 ∷ 0x725318dc36060a49 ∷ 0x274397f8e79a239e
    ∷ 0xbda7965b4095bab0 ∷ 0x6292b2505c7866e3 ∷ 0x451fb6a0672d6733 ∷ 0x37c560f40242a859
    ∷ 0x151e56eb818f1423 ∷ 0x63451986f0c22ee1 ∷ 0x9275ff873a5c75e1 ∷ 0x178cdc734a32b96a
    ∷ 0xff7adbb24244aacc ∷ 0x76518aa0dfd96ddc ∷ 0x161c1c8c81071219 ∷ 0x0584d44c10a3e6dc
    ∷ 0x2727282a09e9acab ∷ 0x1298e49c34514ebd ∷ 0x0323d059ca1c0e6d ∷ 0x6072c8b87dd26bc6
    ∷ 0x36eca2ab28d36f26 ∷ 0x2a977cb5aae4ea2a ∷ 0xf157d43a0b9546a7 ∷ 0x04d60af0ed661d29
    ∷ 0x34bc1080126e4402 ∷ 0x7677ef9a21589171 ∷ 0xbd13797278f07a40 ∷ 0x32c0daf0b57f20ac
    ∷ 0xbc83fd1b8366dc2e ∷ 0x6cd07286c4e670ec ∷ 0xf35485a3f339dc8a ∷ 0x6e7e9285f2247e8b
    ∷ 0xa9d19d3a09943bae ∷ 0x43fa5197eed852a6 ∷ 0xf911398a043242fe ∷ 0x4a100dcb1312cbe9
    ∷ 0xbe2fd86be910a692 ∷ 0x614fd829368d7937 ∷ 0xdb5a98b1a92d578f ∷ 0x46f1d23e1b0dca7e
    ∷ 0x8bf4c6725e813f36 ∷ 0x68bc89078129ce91 ∷ 0xff56503ae28f5c7f ∷ 0x2b6e0f4e42178ce5
    ∷ 0xa97cd947ec65895b ∷ 0x7aa90b66280ff6c9 ∷ 0xebbaf32df158a0a0 ∷ 0x6a748d0ac02bb713
    ∷ 0xdf79b5d619e83397 ∷ 0x16934947f6485b69 ∷ 0xe75185521ab32881 ∷ 0x20791e276a7460c9
    ∷ 0xd25c403e22c70bc9 ∷ 0x0bf079518e66e1d3 ∷ 0x45dd5c971d3711de ∷ 0x66bd2c6a30be232c
    ∷ 0x607829e5b29e53ca ∷ 0x30ed414e71dc08a2 ∷ 0x3fd38589ea0f1d39 ∷ 0x5a881a121f37fc5c
    ∷ 0x27b9394368987a4f ∷ 0x321fe45e13afae2d ∷ 0xc6feb75080f33ea0 ∷ 0x02166d52f45eebbd
    ∷ 0x15026a1b0ccd2fc9 ∷ 0x1141be93d5bc3d6d ∷ 0xfd20df606fc676c9 ∷ 0x4059e26b00ad78c4
    ∷ 0x0709b409cec6b505 ∷ 0x68f020e8acf478e5 ∷ 0x875d77d1f5df0cfc ∷ 0x66eb377735162ff1
    ∷ 0x860482ab417a32ae ∷ 0x21175f47da213935 ∷ 0xa07ff0cda099ecdb ∷ 0x26ae5f177ae2b8e7
    ∷ 0xa9a070ea5120eaf7 ∷ 0x2581feeba7383f81 ∷ 0x49e0f137f1fa2a7a ∷ 0x7fe93c51cfd1ec62
    ∷ 0x2d74dbdca7777f7e ∷ 0x562da2ba74e823ff ∷ 0x543b4f8609d77a2e ∷ 0x3a0f65212f234ec8
    ∷ 0xf842e3fea270ebc6 ∷ 0x4524322c6a289e11 ∷ 0x80815887aa6a8576 ∷ 0x46f49d53c3fe29a3
    ∷ 0xbcc93cedfdb0d388 ∷ 0x4db312076ef0ad2b ∷ 0x1f2cd56373654ad9 ∷ 0x4c6446970034d15f
    ∷ 0x34d2cdbfd5d7130c ∷ 0x6198950d03db2ae5 ∷ 0x736094b72faf1b1a ∷ 0x1f6ca46a9f2588f7
    ∷ 0xcba0b03d6259772a ∷ 0x24e5a23d8d6be3a8 ∷ 0x7090e340c94f6d6f ∷ 0x287ba27ee54e8466
    ∷ 0x87320c8822d607f0 ∷ 0x44fd5802509df171 ∷ 0xf35c09860bf6ba4a ∷ 0x6cf53130ef77cc0a
    ∷ 0xaa81167a00b48ce4 ∷ 0x649f4c775b0d8b48 ∷ 0x59a25683ee98d33d ∷ 0x651479007d1061a6
    ∷ 0x155487411f6e16da ∷ 0x411d036475404bf2 ∷ 0xc231f1344162458a ∷ 0x4f36b7633f7dd368
    ∷ 0xa98ddc0a4e7a89a4 ∷ 0x55d8a5da6eacd542 ∷ 0x5c3fb48b1001ed45 ∷ 0x5c7785ccafa702b9
    ∷ 0xa64369fd216afb79 ∷ 0x1f405ef10e940669 ∷ 0x755f4831bc327b6f ∷ 0x2bc1b67d71f1882d
    ∷ 0x8eab15cfed7777d0 ∷ 0x517370d580d99326 ∷ 0x0811b75701c9db39 ∷ 0x234d84cb52f7b621
    ∷ 0x970c4fbddddae49c ∷ 0x3ba8d842475e41e1 ∷ 0xb0720f6ad75e7008 ∷ 0x275cd5c5184bf345
    ∷ 0x5eb9833888d3796a ∷ 0x1b3a42dfde11c2f3 ∷ 0x946548fe092b5f4d ∷ 0x119917b50f263cc9
    ∷ 0x622de955a20a3f82 ∷ 0x6a552ea3a60c7ff4 ∷ 0xc79230138150372a ∷ 0x18083b9518de76a7
    ∷ 0x55fb74dd7d3b5455 ∷ 0x523eea9a70ff8334 ∷ 0x5994a7335e356271 ∷ 0x3bb011f60430f1d2
    ∷ 0x1ec434cba1d6ea7c ∷ 0x69b632960feb5780 ∷ 0x46c50417541ebf07 ∷ 0x01470bfbf9d23830
    ∷ 0xe9551f4c049bc5cc ∷ 0x1c124638f35ee8ed ∷ 0x09ca3a9141e83a38 ∷ 0x44daaf3e7411127b
    ∷ 0x0e54717b6c2fcd10 ∷ 0x518ab46b26d5914b ∷ 0x528ac6c82341e833 ∷ 0x2247fa99d41f4672
    ∷ 0xabe30c65c0f327a2 ∷ 0x3ac74e012b77e1b4 ∷ 0x35defd694c0e86b3 ∷ 0x7c382e10bfe60e4e
    ∷ 0xf37e382996b8461c ∷ 0x4d47481c53631e1a ∷ 0xac8f167884f7b7b1 ∷ 0x5ae1bb6ab1a4c643
    ∷ 0x63eb02590829df80 ∷ 0x623126862a793fa1 ∷ 0x6e1e242f1ce09807 ∷ 0x7bf96130aaecfd2b
    ∷ 0xedc5e9ea10bff70a ∷ 0x66b548233b94d26e ∷ 0x70c70ee4594d30ab ∷ 0x79b0006c8811353e
    ∷ 0x4352792c91710c1f ∷ 0x0c7bf15181a9f539 ∷ 0xfc995ee769e3779c ∷ 0x44871c6cb9dcedcd
    ∷ 0x0d180bbf2c9a046b ∷ 0x5445c598c45d0cd9 ∷ 0xdefb32386875fb94 ∷ 0x5b0d235355660f35
    ∷ 0xbe1dea825b3a7973 ∷ 0x10658ec4e1bbe147 ∷ 0x48af5e87fad77504 ∷ 0x55f5d3c94a7dd694
    ∷ 0xa9a3e7062cad6ba2 ∷ 0x36c0a7e3f9e0ea31 ∷ 0xc4bd65217010aebc ∷ 0x1d031dfc8b9fb598
    ∷ 0xe3621c104113889e ∷ 0x774b77ee1e6a6477 ∷ 0x124c5b8a07785fd7 ∷ 0x5a6c0df18188cada
    ∷ 0xf4adcd545e72d7be ∷ 0x38100fffb66ba966 ∷ 0x2100cbe35fe4a4d0 ∷ 0x4489be2df052c175
    ∷ 0xa03a22403b26899f ∷ 0x5ae4a0a0fec13928 ∷ 0x89dfbfb802795eaa ∷ 0x34917e9c4ecf2532
    ∷ 0x64b93674c60cbbb3 ∷ 0x25c098506334c71d ∷ 0x8a723f66f1ee34e1 ∷ 0x3a960adf48f141e4
    ∷ 0x659f386695e440bb ∷ 0x577a0fbf6e8095e6 ∷ 0x8ef419b0f4b25496 ∷ 0x044176a30b9e465b
    ∷ 0x7a98705df2013e6f ∷ 0x77d0b2483aa95ce7 ∷ 0x309e917b978effd7 ∷ 0x08f1e55bfe942c7f
    ∷ 0xfc241629b8d613c8 ∷ 0x140f2e35cd68949f ∷ 0x38899f6a3ee4f9fa ∷ 0x7abc8ecdd300f3b5
    ∷ 0xd3dad23505d23eaf ∷ 0x75e73f09376b2c7c ∷ 0x5644a663b60ec5c4 ∷ 0x511ade8afe1eaec9
    ∷ 0xbb005fe4e1abca89 ∷ 0x2838de73b0ca1f6c ∷ 0x800a6658b80d28c8 ∷ 0x48aaba61c91641ec
    ∷ 0x222759cab704d4e2 ∷ 0x106dd3c0ce85beca ∷ 0xa1ce1ce341f69d03 ∷ 0x1651b210e8e4ee10
    ∷ 0x47329a5e7133e136 ∷ 0x58c02f47dc9367b9 ∷ 0x09dcba56947b02af ∷ 0x435c251178125b48
    ∷ 0xd56979a3f0cd9315 ∷ 0x2f02b0a6422afddb ∷ 0x23920f500731f32d ∷ 0x0ab833238232cb5d
    ∷ 0xa7b3d1bfb0bb60db ∷ 0x2342c2a03c6eaec2 ∷ 0xac5e6e5a14d5282e ∷ 0x5b9a421ddc42a24b
    ∷ 0x018506414543e056 ∷ 0x6d7c377c084954e6 ∷ 0x4f8bf71ed3db1ced ∷ 0x5150dbc15ab10979
    ∷ 0x00b50a1b373a7fbf ∷ 0x140be5c3d3244705 ∷ 0x5005bfe96e5b7911 ∷ 0x77cea555bb133f3e
    ∷ 0x2ab1e1a9d7a973c6 ∷ 0x3897ac98314968d3 ∷ 0x9e0f74764b23c9c3 ∷ 0x2e5ecbbae41997cd
    ∷ 0x43e2ea5648f12433 ∷ 0x3a515a0e4808e69c ∷ 0x17d36c03c36bb343 ∷ 0x44cebd053481ce43
    ∷ 0x89008656c21b0d76 ∷ 0x2f8513fcb9009be6 ∷ 0x2e223f90208a0e83 ∷ 0x3828c2d4efd36a73
    ∷ 0xbf17d64f89a8527d ∷ 0x59ebb42b9656151d ∷ 0x7d7bc7245c7dc5ef ∷ 0x191b682a0cb695ec
    ∷ 0x8931172fad9f9add ∷ 0x239b6cbbab2ebdcf ∷ 0x76932f9ca7002dd1 ∷ 0x0c140548f858d8b5
    ∷ 0x6c7adfddcf741ea5 ∷ 0x3b39c4b9e2e1a567 ∷ 0xc5135a25f87436fe ∷ 0x690d8fecb7dd0ae0
    ∷ 0xd782a618ecda10c2 ∷ 0x4f2a84b3134cf832 ∷ 0x35a81f71bbc955a4 ∷ 0x457f88ed64ae6398
    ∷ 0xc27eb71c31479985 ∷ 0x4ae91808569aab32 ∷ 0xa5f2e9785a75eb11 ∷ 0x619cb199b837ed36
    ∷ 0x0e7e5912b9484e40 ∷ 0x3b5831e87fdbcaf0 ∷ 0x49a2779c2d2b039d ∷ 0x3d4b81e07f49061a
    ∷ 0xaa119b0fa222b55c ∷ 0x265c1b11b42fd4e2 ∷ 0x6b4d28e519dd7637 ∷ 0x3d2da7900de5a4b2
    ∷ 0x99b06586b5f21d63 ∷ 0x4ce62bd9e6a1ee18 ∷ 0xb671e753932f8c92 ∷ 0x390b7821d0987834
    ∷ 0x1adf7c73c3f1fc2f ∷ 0x78c636a8514a7af9 ∷ 0xaee3b35fe11e7533 ∷ 0x7fbd199278f6ffd7
    ∷ 0x41aabbf4363d77de ∷ 0x1b27fdf18b96bf6a ∷ 0xda264a1dff9a981c ∷ 0x36efc08530c0bf9a
    ∷ 0x5bd8862a5d830854 ∷ 0x23d7c905e656e6cb ∷ 0x4523324c5b64fdcf ∷ 0x36627f376238665f
    ∷ 0x564f53925c6d5ea4 ∷ 0x17c7cc86a1913022 ∷ 0xf90db52a543b009b ∷ 0x15192dc91f8b994b
    ∷ 0x80bfa3c1a79ec6e2 ∷ 0x48fca8ea99772ecc ∷ 0xfee6a3b98c0f1824 ∷ 0x46a8c75601b81e22
    ∷ 0x2cb3c402a8895fcc ∷ 0x1d1dff9c04305ce2 ∷ 0xc1aefe78e85971d7 ∷ 0x79c6a083ab5a80b2
    ∷ 0x379c7bca5dbf2518 ∷ 0x2419358989b3ca02 ∷ 0xc9c42c9cfa5f470e ∷ 0x4481c2ce91b14459
    ∷ 0x6b04dea1ea26deca ∷ 0x26ee3ceee0d0a101 ∷ 0xe36cc6bcd8fa4f26 ∷ 0x4d14709719764fbd
    ∷ 0xe0572a706f1fef52 ∷ 0x0f75fb69a23f2ec1 ∷ 0x32ae4b04a864cf3b ∷ 0x0b6373a91b944773
    ∷ 0x1a8f2bc20bd088af ∷ 0x586b0d5ace401747 ∷ 0xa0e6b094a3c51433 ∷ 0x1752a123c268c1c7
    ∷ 0x643c2a93b5770ea1 ∷ 0x536cb9d1b71eeb43 ∷ 0x6bfb0525d0cc6b3f ∷ 0x1f4dcfeec3adefc3
    ∷ 0x28a0169dd0bf57f0 ∷ 0x1336c9aa20a35449 ∷ 0xbbcda068703ad7a1 ∷ 0x5e33478283c1e03d
    ∷ 0xf1997733d18fdaf2 ∷ 0x789af507a17bb867 ∷ 0x79970c14d5695613 ∷ 0x79452342e845256f
    ∷ 0x6c12f9367a26a018 ∷ 0x11beda1c8f9cdfbe ∷ 0x720e6ddf24b30929 ∷ 0x7706e91e3e544755
    ∷ 0x4460381d3a6c9059 ∷ 0x7e01916c3678c424 ∷ 0x6024355a61d2bb07 ∷ 0x68bae01d79c869e2
    ∷ 0xf21cbcff285df659 ∷ 0x02f7ee6aeb57c933 ∷ 0xce0f078c17266467 ∷ 0x039b4fdb5170a103
    ∷ 0xd5de0fec61a4ae1b ∷ 0x33d37a152a778695 ∷ 0xea64e40e6a10ded9 ∷ 0x1f1d394373bdb213
    ∷ 0xf63598b6ef59fd14 ∷ 0x57922adc3ae52283 ∷ 0xe39a90e18b76f4a1 ∷ 0x27f3dbebd98a9dae
    ∷ 0x18179dd9c03804b3 ∷ 0x511d72c1912e2d73 ∷ 0x88e1f6d24b2f3225 ∷ 0x56009999cdc2997f
    ∷ 0xda6df977b7d82fe4 ∷ 0x76f746bba63da226 ∷ 0x0b5facfc3bf13bd7 ∷ 0x4a31eb04f66f0e18
    ∷ 0x8ace73d5e7cfe28f ∷ 0x19aa731bc30c20b1 ∷ 0xa91979fe73400317 ∷ 0x6795ce71a09c7c9f
    ∷ 0x93d55501933700ba ∷ 0x3850eaf08b1fd14d ∷ 0x450c5abc89edca71 ∷ 0x1be5db848bdfa5ef
    ∷ 0x77667d3f4fcf082b ∷ 0x673b6e6c4824bc45 ∷ 0x6f22c12a5fe0ed6d ∷ 0x006ee6722b5dfed1
    ∷ 0xb47a13c1468d0c62 ∷ 0x40564879a378e6e4 ∷ 0x0bc6b553a9d3ab58 ∷ 0x21761c79e44dfcfd
    ∷ 0x66f36ed3eb1050fb ∷ 0x2e67df1312dd01d3 ∷ 0x48744c4a68dbf2ad ∷ 0x7844962b6d6e039c
    ∷ 0xe07b5675d378b65f ∷ 0x336262aa3d2c1df0 ∷ 0x320a5667d78c2e2b ∷ 0x4f668dd96dda5e2a
    ∷ 0xe21556795c7b8470 ∷ 0x3061905b2ef82bb1 ∷ 0xaee53211472206b6 ∷ 0x1f87377fee0d7a39
    ∷ 0xdac58c52a3b1a0c7 ∷ 0x6e3c4ce04f0d7ffd ∷ 0xfdffec45d4a3990f ∷ 0x4b5340f79e2ae2c2
    ∷ 0x0537c8b7b3d1f332 ∷ 0x55292744ae35ee1a ∷ 0x42336d0e6d057f1e ∷ 0x5ac40e9e645cb3d7
    ∷ 0x848f7b7f845e46c7 ∷ 0x74bda86736eff150 ∷ 0x891acf622baf4f35 ∷ 0x14bcef9cf39667bb
    ∷ 0x9aa1354d9731b9b3 ∷ 0x27e855a19295e59f ∷ 0x1a829a8e10662ed0 ∷ 0x3bbc43f9ec4437a7
    ∷ 0x8bfa8b1cb1de5341 ∷ 0x3432778068d35549 ∷ 0xe3d807da41f25a48 ∷ 0x1bb6ee1ce2efe552
    ∷ 0x08d9bded0bd3affc ∷ 0x290f1c5299a917a8 ∷ 0xda8dfd79562f8939 ∷ 0x1bf7aae68686211f
    ∷ 0x2ab6daf9bc860765 ∷ 0x7bef6e2f0eb58a0b ∷ 0x8746faab7c439b94 ∷ 0x017ea87750bb8bda
    ∷ 0xf8dfeb22239c9a7c ∷ 0x35cec0d2887b3a13 ∷ 0x68aa94ac601f1606 ∷ 0x7470553f8ba61767
    ∷ 0x37894f91c9eac410 ∷ 0x55b22aeb8337f732 ∷ 0x53f8d90f29a2fe94 ∷ 0x0aec068aec69023a
    ∷ 0x40506162ad6182ee ∷ 0x6a327ff1ac1e5475 ∷ 0x968d7095492df3c8 ∷ 0x3f93f46195f67521
    ∷ 0x4983bca28970d546 ∷ 0x2716b931296b53c2 ∷ 0xf42b013266b6f8b3 ∷ 0x76f29b084b6a369f
    ∷ 0x8e28749222216249 ∷ 0x4f2fa1d3a6c1acfd ∷ 0x0ee66697eab8f954 ∷ 0x37c33e28fec0cce5
    ∷ 0x7d0419e2bafd1dd1 ∷ 0x01f04d4299b94daa ∷ 0x5ec06abbc1e5c7e6 ∷ 0x3a24c66060ed72a9
    ∷ 0x0db764e15f960f26 ∷ 0x1d5973d5d59f9c3a ∷ 0xf3dc2608dc6d9149 ∷ 0x1d80e0461b72f518
    ∷ 0x2264dccd49c8b09c ∷ 0x1f03e7a246334d5e ∷ 0x2d6e38871b1fc2ad ∷ 0x418588ae4f284bd3
    ∷ 0x3efb071bafe1afa2 ∷ 0x0799ba0c80bdd8dc ∷ 0xa6b273222dcc4a76 ∷ 0x13859f08ac8a4b23
    ∷ 0x0194acc2663c5acb ∷ 0x459fa55bd0bbedf6 ∷ 0x1b055550f06f8cc1 ∷ 0x09e5fad46599ea75
    ∷ 0x6b3916ef772958a3 ∷ 0x4aaaa5c18093a431 ∷ 0x8e1503e36610f594 ∷ 0x620ef55048a263b9
    ∷ 0x5a28963c8cb8ecbc ∷ 0x6aee46b1b740c15a ∷ 0x67e39606f59cfea9 ∷ 0x13a579e3777ca8b1
    ∷ 0x45ad92f61cbb8de3 ∷ 0x53068a1a42460eab ∷ 0x9b163546de379578 ∷ 0x07bf38a7cecd4860
    ∷ 0xf84c77031d282de1 ∷ 0x402aed6399f78ffc ∷ 0xfb83dd20295f6d45 ∷ 0x3702e257340d2ecd
    ∷ 0xb8db2d8b979b97c8 ∷ 0x617526d2a50b0c51 ∷ 0xd86f6278313017db ∷ 0x2f35eedec55f9d92
    ∷ 0xeecb69493517973b ∷ 0x7a111a74e0baf09a ∷ 0xb82c6da8ec39f63d ∷ 0x4217076312833746
    ∷ 0x5d36d11f3dda88d9 ∷ 0x7baebcb360f2a887 ∷ 0x9829b62d093d6cbb ∷ 0x10f17a2f6edf28fd
    ∷ 0xfe3efa4353f40626 ∷ 0x731ca3065c118e34 ∷ 0x6185678827960895 ∷ 0x07f906a4f4c6355c
    ∷ 0x361d9cd10e657142 ∷ 0x2b5f5d452dd861ce ∷ 0xa3e01df05d04b69a ∷ 0x533723bc4cfcc0db
    ∷ 0x820384afa1bbccb5 ∷ 0x4e67e941595d8dfd ∷ 0x0f8da50839e13646 ∷ 0x6887a0573a596968
    ∷ 0xe93dd1df5ace7343 ∷ 0x0d4076f28ecf96c8 ∷ 0x0ba2f854988074c1 ∷ 0x5eb2a314a41a40b6
    ∷ 0x49ff6d27a676b27e ∷ 0x15f7ca40acd5114e ∷ 0xc171f9a750d7da95 ∷ 0x3bedbe891f79eb5c
    ∷ 0x5b643bceb83f74ff ∷ 0x088b1af3aa331a4c ∷ 0xde294c7e0a60c4a9 ∷ 0x0a0770fc8120b151
    ∷ 0xf09b757a0c7c1937 ∷ 0x34b797c03efd9c88 ∷ 0x051e3edb2c28cc49 ∷ 0x66db34ec5ac5122c
    ∷ 0x95fde0d3d3dc8cbf ∷ 0x797897c8121818cf ∷ 0x1fd46d197710f89d ∷ 0x533a505803f809c5
    ∷ 0xb60f1c090c9fd211 ∷ 0x4a7c3479af5c9d82 ∷ 0x4bfc3ffa4c8cf5a5 ∷ 0x6949f4a61306821f
    ∷ 0xd814c949c67abcdc ∷ 0x419a5e33166863c4 ∷ 0x9de646f6bd0895e0 ∷ 0x497cc1449a54545a
    ∷ 0x69eb31247fe126f2 ∷ 0x323c83233967f477 ∷ 0x52e0db4d3d78127d ∷ 0x42a0e188e7b9380c
    ∷ 0x3a6b011c46e34e7e ∷ 0x79f4168aa9a0b4aa ∷ 0x94270a25d708fa4d ∷ 0x2bb28618cbc9cdc8
    ∷ 0x741e46bb04606819 ∷ 0x02790c52fb2ce982 ∷ 0x6dbb92d0c6d0af10 ∷ 0x32aa96ae061e9412
    ∷ 0x1376700c90d98eaa ∷ 0x4d1dfe650c0a7136 ∷ 0xb397f8eef89aff20 ∷ 0x4836ac4a041bae37
    ∷ 0xf37c1076a80a02b8 ∷ 0x0d063fa2467b3a37 ∷ 0x498f2617b56b7e7b ∷ 0x65ef1194db859a5d
    ∷ 0xd1fe25d5d28ffcb6 ∷ 0x228ee6f49459c083 ∷ 0x6b7e82b3b009b15b ∷ 0x713b185ef1fccbfc
    ∷ 0x552468f1ff60c298 ∷ 0x2b7ba65d02519614 ∷ 0x8a86ad90ff0816c2 ∷ 0x7bf9249284bd02e5
    ∷ 0x3008c56e474c2d10 ∷ 0x171473b77f804540 ∷ 0x15fb79d07bdea766 ∷ 0x66ac67c7b9b0951f
    ∷ 0x34bca15bb6d2f652 ∷ 0x13c63dd2687d617b ∷ 0xc515ae237715c19c ∷ 0x0e543c6765fbfef2
    ∷ 0x668c80faf156fb5e ∷ 0x1e2e9e3b3d9962b8 ∷ 0x89ebaa264394e113 ∷ 0x322add21cf1659cf
    ∷ 0xf9e6e26733619f8e ∷ 0x723bfc8b792147f0 ∷ 0x79aef2837d7e092f ∷ 0x1aa61c59290b5011
    ∷ 0x9955ae576a499cd3 ∷ 0x2c3d6e6a5a1ce0da ∷ 0xb864cfa199a8676b ∷ 0x4961a21f1080285f
    ∷ 0x828e184adf9d997b ∷ 0x0c84bda97e7ce725 ∷ 0xe6974677094cfcc5 ∷ 0x4ec8cd773946105b
    ∷ 0xa48681bcc95fb5c6 ∷ 0x6ade87f8f7a5f269 ∷ 0x9b97628fdd39c03d ∷ 0x3bde0ee1f19f1842
    ∷ 0x4ef8c8fb117c0ca1 ∷ 0x769bf8f8d07de9bf ∷ 0xc8f5f435b78a57e5 ∷ 0x79987aa861bbcf9c
    ∷ 0x7f6c557204b02022 ∷ 0x119bd819111c69d1 ∷ 0xf0c61ef00b3eb70b ∷ 0x4317f0511bfb7b39
    ∷ 0x36a2b944e84d608e ∷ 0x1c1a3862da3369cb ∷ 0x37dbf471085f1775 ∷ 0x3835751e107419ad
    ∷ 0x04ab0c84bb07a3fe ∷ 0x63758bfbc7df13a0 ∷ 0x15ffd20cb554f23e ∷ 0x1ff11c442b1515b7
    ∷ 0x171377f1bf937186 ∷ 0x615efe82b83538f8 ∷ 0x321e7cfae352a761 ∷ 0x7af02427d7241502
    ∷ 0x86546e47f2cc559f ∷ 0x65a1d8a017659d75 ∷ 0xc95d8aa5b8bfdac9 ∷ 0x01e887cb68990623
    ∷ 0xf1f8ee8c466bcc3d ∷ 0x40ce5e4f2ba3908f ∷ 0xd2b81a3480c16b35 ∷ 0x51625d3eabf708cd
    ∷ 0x44d770a210105739 ∷ 0x7f1de74a022958a0 ∷ 0xfbe4c91bd1e8f732 ∷ 0x204fbacb13586460
    ∷ 0x97d79097d62e3cf8 ∷ 0x541ad5591934b114 ∷ 0xfdfb47919c141909 ∷ 0x354926e5244fdecf
    ∷ 0x6291b0a0e2e994b0 ∷ 0x2b9a9a69d3a6c3d1 ∷ 0x8189be54302371e7 ∷ 0x3645c65df1a881cd
    ∷ 0xdf0460f445e3877b ∷ 0x7ea384dc52d0d26e ∷ 0x0c2e5f768d46b6b0 ∷ 0x1f6e62daa7c5d4e6
    ∷ 0xf8b026b33b2343ee ∷ 0x2b7183c8767d372c ∷ 0xbd45d1b6b6731517 ∷ 0x4ddb3d287c470d60
    ∷ 0x1031dba40263ece2 ∷ 0x4e737fa0d659045f ∷ 0x8cbc98d07d09b455 ∷ 0x34a35128a2bcb7f5 ∷ []
